-- ===== src/Apisix/Nodes.antt =====
-- IsSameNodes of pkg/apisix/utils/utils.go. `none` is a nil slice, which the function tells from an
-- empty one.
pub mod Same
use amesh.Prelude.{
  Bool, true, false, not, List, [], ◌∷◌, Option, none, some, Map, lookup, insert, length, eqb,
  eqb_ℤ, if◌then◌else◌,
}
use amesh.Apisix.Upstream.{Node}

-- for _, u := range nodes1 { n1Map[u.Host] = u }
unfoldable pub index_hosts : Map Node → List Node → Map Node
index_hosts m [] = m
index_hosts m (n ∷ ns) = index_hosts (insert n.host n m) ns

-- the loop over nodes2
unfoldable pub match_nodes : Map Node → List Node → Bool
match_nodes m [] = true
match_nodes m (n2 ∷ ns) =
    let rest = match_nodes m ns in
    elim (lookup n2.host m) [
      | none ↦ false
      | some n1 ↦
          if not (eqb_ℤ n1.port n2.port)
          then false
          else if not (eqb_ℤ n1.weight n2.weight)
          then false
          else rest
    ]

unfoldable pub is_same_nodes : Option (List Node) → Option (List Node) → Bool
unfolding index_hosts match_nodes
is_same_nodes none none = true
is_same_nodes none (some ns) = false
is_same_nodes (some ns) none = false
is_same_nodes (some nodes1) (some nodes2) =
    if not (eqb (length nodes1) (length nodes2))
    then false
    else match_nodes (index_hosts [] nodes1) nodes2
