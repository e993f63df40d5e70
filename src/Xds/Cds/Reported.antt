-- ===== src/Xds/Cds/Reported.antt =====
-- A CDS response to the translate of pkg/amesh/provisioner/xds.go: every upstream that has nodes
-- afterwards stands in the new manifest.
use amesh.Prelude.{
  String, true, ◌≡◌, ◌≢◌, ◌⊎◌, refl, ◌∙◌, List, [], ◌∷◌, ◌++◌, some, Map, lookup, insert,
  lookup-insert, eq_iff, All, All-map, All-append, arith, Option-cases, Bool-cases, text-cases, inl,
  inr, if◌then◌else◌,
}
use amesh.Apisix.Upstream.{Upstream}
use amesh.Apisix.Compare.Latest.{latest, latest-append}
use amesh.Xds.Envoy.{Any, Cluster, DiscoveryType, eds, other_discovery}
use amesh.Xds.Externals.{Externals}
use amesh.Xds.Cluster.{
  Assigned, assigned, require_further_eds, new_upstream, cluster_nodes,
  translate_cluster_load_assignment, translate_cluster_load_assignments, translate_cluster,
}
use amesh.Xds.Provisioner.{XdsProvisioner, has_nodes, is_eds}
use amesh.Xds.Cds.{Clusters, old_with_nodes, take_cluster, cluster_end, cluster_one, cluster_loop}
use amesh.Xds.Named.{IsDistinct, insert-IsDistinct, IsNamed, insert-IsNamed, latest-other}

Assigned-cases :
    {A : Type 0} (a : Assigned A) → (a ≡ require_further_eds) ⊎ ((x : A) × (a ≡ assigned x))
Assigned-cases (assigned x) = inr (x, refl)
Assigned-cases require_further_eds = inl refl

cluster_nodes_named :
    (t : DiscoveryType) (c : Cluster) (ups out : Upstream)
    → cluster_nodes t c ups ≡ assigned out
    → (out.name ≡ ups.name) × (out.id ≡ ups.id) × (t ≡ eds → out.nodes ≡ ups.nodes)
unfolding cluster_nodes
cluster_nodes_named eds c ups out e = ground arith
cluster_nodes_named other_discovery c ups out e =
    elim (Assigned-cases (translate_cluster_load_assignment c.load_assignment)) [
      | inl h ↦ absurd (ground arith)
      | inr (nodes, h) ↦ ground arith
    ]

is_eds_lem : (c : Cluster) → is_eds c ≡ true → c.discovery_type ≡ eds
unfolding is_eds
is_eds_lem c e = ground arith

-- What the translation of a cluster gives: its name, the id made of it, and no nodes for an EDS
-- cluster.
pub translate_cluster_named :
    (gen_id : String → String) (c : Cluster) (ups : Upstream)
    → translate_cluster gen_id c ≡ assigned ups
    → (ups.name ≡ c.name) × (ups.id ≡ gen_id c.name) × (is_eds c ≡ true → ups.nodes ≡ [])
unfolding translate_cluster translate_cluster_load_assignments new_upstream
translate_cluster_named gen_id c ups e = elim (Bool-cases c.has_cluster_type) [
  | inl h ↦ ground arith
  | inr h ↦
      ground
        (arith, cluster_nodes_named c.discovery_type c (new_upstream gen_id c) ups, is_eds_lem c)
]

pub has_nodes-ne : (u : Upstream) → has_nodes u ≡ true → u.nodes ≢ []
has_nodes-ne u h e = ground arith

ne-has_nodes : (u : Upstream) → u.nodes ≢ [] → has_nodes u ≡ true
ne-has_nodes u h = ground arith

module _ (gen_id : String → String) (Known : String → Type 0)
    (injective : (a b : String) → Known a → Known b → gen_id a ≡ gen_id b → a ≡ b) where
  -- The variables of the loop: each upstream with nodes stands last in the manifest under its id.
  pub record IsReported (s : Clusters) : Type 0 where
    pub distinct : IsDistinct s.new_ups
    pub named : IsNamed gen_id Known s.new_ups
    pub served : All (λ u. u.nodes ≢ []) s.manifest
    pub reported :
        (n : String) (u : Upstream)
        → lookup n s.new_ups ≡ some u
        → u.nodes ≢ []
        → latest (λ u. u.id) u.id s.manifest ≡ some u

  -- an upstream of this cluster with nodes
  abbrev IsOf : String → Upstream → Type 0
  IsOf name u = (u.id ≡ gen_id name) × (u.nodes ≢ [])

  appended :
      (s : Clusters) (ups : Upstream) (extra : List Upstream)
      → IsReported s
      → ups.id ≡ gen_id ups.name
      → Known ups.name
      → All (IsOf ups.name) extra
      → (ups.nodes ≢ [] → latest (λ u. u.id) ups.id extra ≡ some ups)
      → (n : String) (u : Upstream) → lookup n (insert ups.name ups s.new_ups) ≡ some u
      → u.nodes ≢ []
      → latest (λ u. u.id) u.id (s.manifest ++ extra) ≡ some u
  appended s ups extra h i known of_it own n u e has =
      rw (latest-append (λ u. u.id) u.id s.manifest extra) (elim (text-cases ups.name n) [
        | inl (same, eq) ↦ ground (arith, lookup-insert ups.name n ups s.new_ups, own)
        | inr (other, ne) ↦
            let found : lookup n s.new_ups ≡ some u =
              ground (arith, lookup-insert ups.name n ups s.new_ups) in
            rw
              (latest-other gen_id Known u.id (gen_id ups.name) extra
                (All-map extra (λ v h. h.0) of_it)
                (λ g.
                  ne
                    (injective ups.name n known (h.named n u found).2 (g ∙ (h.named n u found).1))))
              (h.reported n u found has)
      ])

  with_appended :
      (s t : Clusters) (ups : Upstream) (extra : List Upstream)
      → IsReported s
      → ups.id ≡ gen_id ups.name
      → Known ups.name
      → All (IsOf ups.name) extra
      → (ups.nodes ≢ [] → latest (λ u. u.id) ups.id extra ≡ some ups)
      → t.manifest ≡ s.manifest ++ extra
      → t.new_ups ≡ insert ups.name ups s.new_ups
      → IsReported t
  with_appended s t ups extra h i known of_it own m n = record {
    distinct = rw n (insert-IsDistinct ups.name ups s.new_ups h.distinct);
    named = rw n (insert-IsNamed gen_id Known ups s.new_ups i known h.named);
    served = rw m (All-append _ s.manifest extra h.served (All-map extra (λ v k. k.1) of_it));
    reported = rw (m, n) (appended s ups extra h i known of_it own);
  }

  module _ (old : Map Upstream) (old_named : IsNamed gen_id Known old) where
    old_with_nodes-IsOf : (name : String) → All (IsOf name) (old_with_nodes old name)
    unfolding old_with_nodes
    old_with_nodes-IsOf name = elim (Option-cases (lookup name old)) [
      | inl e ↦ rw (e, All) tt
      | inr (u, e) ↦ elim (Bool-cases (has_nodes u)) [
        | inl h ↦ rw (e, All, h) (((old_named name u e).1, has_nodes-ne u h), tt)
        | inr h ↦ rw (e, All, h) tt
      ]
    ]

    own-IsOf :
        (ups : Upstream)
        → ups.id ≡ gen_id ups.name
        → All (IsOf ups.name) (if has_nodes ups then ups ∷ [] else [])
    own-IsOf ups id = elim (Bool-cases (has_nodes ups)) [
      | inl h ↦ rw (h, All) ((id, has_nodes-ne ups h), tt)
      | inr h ↦ rw (h, All) tt
    ]

    own_latest :
        (ups : Upstream)
        → has_nodes ups ≡ true
        → latest (λ u. u.id) ups.id (if has_nodes ups then ups ∷ [] else []) ≡ some ups
    unfolding latest
    own_latest ups h = ground (arith, eq_iff ups.id ups.id)

    take_cluster-IsReported :
        (c : Cluster) (ups : Upstream) (s : Clusters)
        → translate_cluster gen_id c ≡ assigned ups
        → Known c.name
        → IsReported s
        → IsReported (take_cluster old c ups s)
    unfolding take_cluster
    take_cluster-IsReported c ups s e known h =
        let (name, id, no_nodes) = translate_cluster_named gen_id c ups e in
        let own_id : ups.id ≡ gen_id ups.name = rw name id in
        let own_known : Known ups.name = rw name known in
        elim (Bool-cases (is_eds c)) [
          | inl is ↦ rw is (
              with_appended s _ ups (old_with_nodes old c.name) h own_id own_known
                (rw name (old_with_nodes-IsOf c.name)) (λ has. absurd (has (no_nodes is))) refl
                refl)
          | inr not_eds ↦ rw not_eds (
              with_appended s _ ups (if has_nodes ups then ups ∷ [] else []) h own_id own_known
                (own-IsOf ups own_id) (λ has. own_latest ups (ne-has_nodes ups has)) refl refl)
        ]

-- Every cluster that the resources name has a known name.
abbrev pub AreListed : Externals → (String → Type 0) → List Any → Type 0
AreListed ext Known = All (λ res. (c : Cluster) → ext.unmarshal_cluster res ≡ some c → Known c.name)

module _ (ext : Externals) (Known : String → Type 0)
    (injective : (a b : String) → Known a → Known b → ext.gen_id a ≡ ext.gen_id b → a ≡ b)
    (p : XdsProvisioner) (named : IsNamed ext.gen_id Known p.upstreams) where
  abbrev IsGood : Clusters → Type 0
  IsGood = IsReported ext.gen_id Known injective

  translated_reported :
      (c : Cluster) (s : Clusters) (a : Assigned Upstream)
      → translate_cluster ext.gen_id c ≡ a
      → Known c.name
      → IsGood s
      → IsGood (cluster_end p c a s)
  unfolding cluster_end
  translated_reported c s require_further_eds e known h = record {
    distinct = h.distinct;
    named = h.named;
    served = h.served;
    reported = h.reported;
  }
  translated_reported c s (assigned ups) e known h =
      take_cluster-IsReported ext.gen_id Known injective p.upstreams named c ups s e known h

  one_reported :
      (res : Any) (s : Clusters)
      → ((c : Cluster) → ext.unmarshal_cluster res ≡ some c → Known c.name)
      → IsGood s
      → IsGood (cluster_one ext p res s)
  unfolding cluster_one
  one_reported res s listed h = elim (Option-cases (ext.unmarshal_cluster res)) [
    | inl e ↦ rw (e, cluster_one) h
    | inr (c, e) ↦
        rw (e, cluster_one)
          (translated_reported c s (translate_cluster ext.gen_id c) refl (listed c e) h)
  ]

  pub loop_reported :
      (resources : List Any) (s : Clusters)
      → AreListed ext Known resources
      → IsGood s
      → IsGood (cluster_loop ext p resources s)
  unfolding cluster_loop
  loop_reported [] s listed h = h
  loop_reported (res ∷ rest) s listed h =
      loop_reported rest (cluster_one ext p res s) listed.1 (one_reported res s listed.0 h)

  pub nothing_reported : IsGood (record { required = []; manifest = []; new_ups = [] })
  unfolding lookup
  nothing_reported = record {
    distinct = tt;
    named = λ n u e. absurd (cc e);
    served = tt;
    reported = λ n u e has. absurd (cc e);
  }
