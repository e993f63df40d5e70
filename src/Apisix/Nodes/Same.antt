-- ===== src/Apisix/Nodes/Same.antt =====
-- What IsSameNodes of pkg/apisix/utils/utils.go tests.
use amesh.Prelude.{
  ℤ, pos, negsuc, String, true, ◌≡◌, ◌↔◌, refl, ap, List, [], ◌∷◌, some, Map, lookup, insert,
  lookup-insert, length, eqb_ℤ, All, arith, Option-cases, inl, inr,
}
use amesh.Apisix.Upstream.{Node}
use amesh.Apisix.Compare.Latest.{latest, or_else}
use amesh.Apisix.Nodes.{index_hosts, match_nodes, is_same_nodes}

lookup-index_hosts :
    (k : String) (m : Map Node) (ns : List Node)
    → lookup k (index_hosts m ns) ≡ or_else (latest (λ n. n.host) k ns) (lookup k m)
unfolding index_hosts latest
lookup-index_hosts k m [] = refl
lookup-index_hosts k m (n ∷ ns) =
    ground (arith, lookup-index_hosts k (insert n.host n m) ns, lookup-insert n.host k n m)

eqb_ℤ-true : (a b : ℤ) → eqb_ℤ a b ≡ true → a ≡ b
eqb_ℤ-true (pos a) (pos b) h = ap pos (ground arith)
eqb_ℤ-true (negsuc a) (negsuc b) h = ap negsuc (ground arith)
eqb_ℤ-true (pos a) (negsuc b) h = absurd (ground arith)
eqb_ℤ-true (negsuc a) (pos b) h = absurd (ground arith)

eqb_ℤ_refl : (a : ℤ) → eqb_ℤ a a ≡ true
eqb_ℤ_refl (pos a) = ground arith
eqb_ℤ_refl (negsuc a) = ground arith

-- The map has the node's host, with its port and its weight.
abbrev pub IsIn : Map Node → Node → Type 0
IsIn m n2 =
    (n1 : Node) × (lookup n2.host m ≡ some n1) × (n1.port ≡ n2.port) × (n1.weight ≡ n2.weight)

match_nodes-All : (m : Map Node) (ns : List Node) → match_nodes m ns ≡ true → All (IsIn m) ns
unfolding match_nodes
match_nodes-All m [] h = tt
match_nodes-All m (n2 ∷ ns) h = elim (Option-cases (lookup n2.host m)) [
  | inl e ↦ absurd (ground arith)
  | inr (n1, e) ↦ (
    (
      n1,
      e,
      eqb_ℤ-true n1.port n2.port (ground arith),
      eqb_ℤ-true n1.weight n2.weight (ground arith),
    ),
    match_nodes-All m ns (ground arith),
  )
]

All-match_nodes : (m : Map Node) (ns : List Node) → All (IsIn m) ns → match_nodes m ns ≡ true
unfolding match_nodes
All-match_nodes m [] h = refl
All-match_nodes m (n2 ∷ ns) h =
    let (n1, e, port, weight) = h.0 in
    ground (arith, All-match_nodes m ns h.1, eqb_ℤ_refl n2.port, eqb_ℤ_refl n2.weight)

-- The last node of the list with the node's host has its port and its weight.
abbrev pub IsAmong : List Node → Node → Type 0
IsAmong ns n2 =
    (n1 : Node) × (latest (λ n. n.host) n2.host ns ≡ some n1)
    × (n1.port ≡ n2.port)
    × (n1.weight ≡ n2.weight)

lookup-hosts_empty :
    (k : String) (ns : List Node) → lookup k (index_hosts [] ns) ≡ latest (λ n. n.host) k ns
unfolding lookup
lookup-hosts_empty k ns = ground (arith, lookup-index_hosts k [] ns)

same_list : {P Q : Node → Type 0} (ns : List Node) → ((n : Node) → P n → Q n) → All P ns → All Q ns
same_list [] f h = tt
same_list (n ∷ ns) f h = (f n h.0, same_list ns f h.1)

-- Two slices that are not nil are the same just when they have one length and, for each node of the
-- second, the last node of the first with its host has its port and its weight.
pub is_same_nodes_iff :
    (xs ys : List Node)
    → (is_same_nodes (some xs) (some ys) ≡ true) ↔ ((length xs ≡ length ys) × All (IsAmong xs) ys)
unfolding is_same_nodes
is_same_nodes_iff xs ys = (
  λ h. (
    ground arith,
    same_list ys
        (λ n (n1, e, port, weight). (n1, rw (← lookup-hosts_empty n.host xs) e, port, weight))
        (match_nodes-All (index_hosts [] xs) ys (ground arith)),
  ),
  λ (n, h).
      let matched = All-match_nodes (index_hosts [] xs) ys (
        same_list ys
          (λ n (n1, e, port, weight). (n1, rw (lookup-hosts_empty n.host xs) e, port, weight)) h) in
      ground arith,
)
