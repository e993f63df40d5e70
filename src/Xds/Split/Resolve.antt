-- ===== src/Xds/Split/Resolve.antt =====
-- The traffic split sends each cluster's share to that cluster.
use amesh.Prelude.{
  ℕ, String, ◌≡◌, ◌≢◌, List, [], ◌∷◌, some, ok, ◌==◌, eq_iff, arith, All, if◌then◌else◌,
}
use amesh.Apisix.Plugin.{TrafficSplitWeightedUpstreams}
use amesh.Xds.Envoy.{ClusterWeight}
use amesh.Xds.Match.{last_cluster}
use amesh.Xds.Split.{split_loop}

-- The upstream that an entry stands for: its own, or the route's if it has none.
abbrev pub resolve : String → TrafficSplitWeightedUpstreams → String
resolve default u = if u.upstream_id == "" then default else u.upstream_id

module _ (gen_id : String → String) where
  -- Each entry, in order, has the weight of its cluster and stands for the cluster's upstream.
  abbrev pub Follows : String → List ClusterWeight → List TrafficSplitWeightedUpstreams → Type 0
  Follows default [] [] = Unit
  Follows default (c ∷ cs) (u ∷ us) =
      (c.weight ≡ some u.weight) × (resolve default u ≡ gen_id c.name) × Follows default cs us
  Follows default _ _ = ⊥

  -- If the listed clusters' ids are not empty and every weight is set, the loop succeeds on clusters with a last one, and
  -- each entry, in order, has the weight of its cluster and stands for that cluster's upstream.
  pub split_loop-Follows :
      (cs : List ClusterWeight) (default : String)
      → All (λ c. gen_id c.name ≢ "") cs
      → All (λ c. (w : ℕ) × (c.weight ≡ some w)) cs
      → last_cluster cs ≡ ok default
      → (us : List TrafficSplitWeightedUpstreams) × (split_loop gen_id cs ≡ ok us)
        × Follows (gen_id default) cs us
  unfolding split_loop last_cluster
  split_loop-Follows [] default ids weights l = absurd (cc)
  split_loop-Follows (c ∷ []) default ids weights l =
      let (w, e) = weights.0 in
      (record { upstream_id = ""; weight = w } ∷ [], ground arith, (e, ground arith, tt))
  split_loop-Follows (c ∷ d ∷ cs) default ids weights l =
      let (w, e) = weights.0 in
      let (us, h, follows) = split_loop-Follows (d ∷ cs) default ids.1 weights.1 l in
      (
        record { upstream_id = gen_id c.name; weight = w } ∷ us,
        ground arith,
        (e, ground (arith, eq_iff (gen_id c.name) "", ids.0), follows),
      )
