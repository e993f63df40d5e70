-- ===== src/Apisix/Compare.antt =====
-- CompareRoutes and CompareUpstreams of pkg/apisix/utils/utils.go. The two functions are the same
-- code at two types: here at any type with a key and an encoder. A nil slice is the empty list.
-- json.Marshal is the encoder: it gives the bytes, or fails.
pub mod Latest
pub mod Updated
pub mod Exact
use amesh.Prelude.{
  String, Bool, true, not, List, [], ◌∷◌, Option, none, some, Map, lookup, insert, is_some, ◌==◌,
  if◌then◌else◌,
}
use amesh.Apisix.Route.{Route}
use amesh.Apisix.Upstream.{Upstream}

-- the named results (added, deleted, updated)
pub record Changes {ℓ} (A : Type ℓ) : Type ℓ where
  pub added : List A
  pub deleted : List A
  pub updated : List A

module _ {ℓ} {A : Type ℓ} (key : A → String) where
  -- for _, r := range rs { m[r.Id] = r }
  unfoldable pub index_all : Map A → List A → Map A
  index_all m [] = m
  index_all m (r ∷ rs) = index_all (insert (key r) r m) rs

  -- the loop over r2 that collects `added`
  unfoldable pub added_loop : Map A → List A → List A
  added_loop m [] = []
  added_loop m (r ∷ rs) =
      let rest = added_loop m rs in if is_some (lookup (key r) m) then rest else r ∷ rest

-- the old and the new encoding differ, or one of them fails
unfoldable pub is_changed {ℓ} : {A : Type ℓ} → (A → Option String) → A → A → Bool
is_changed marshal ro rn = elim (marshal ro) [
  | none ↦ true
  | some old ↦ elim (marshal rn) [ none ↦ true | some new ↦ not (old == new) ]
]

module _ {ℓ} {A : Type ℓ} (key : A → String) (marshal : A → Option String) where
  -- the loop over r1 that collects `deleted` and `updated`
  unfoldable pub old_loop : Map A → List A → List A × List A
  old_loop m [] = ([], [])
  old_loop m (ro ∷ rs) =
      let (deleted, updated) = old_loop m rs in
      elim (lookup (key ro) m) [
        | none ↦ (ro ∷ deleted, updated)
        | some rn ↦ (deleted, if is_changed marshal ro rn then rn ∷ updated else updated)
      ]

  -- the function below its two early returns
  unfoldable pub compare_loops : List A → List A → Changes A
  unfolding index_all added_loop old_loop
  compare_loops r1 r2 =
      let (deleted, updated) = old_loop (index_all key [] r2) r1 in
      record {
        added = added_loop key (index_all key [] r1) r2;
        deleted = deleted;
        updated = updated;
      }

  unfoldable pub compare_resources : List A → List A → Changes A
  unfolding compare_loops
  compare_resources [] r2 = record { added = r2; deleted = []; updated = [] }
  compare_resources (r ∷ r1) [] = record { added = []; deleted = r ∷ r1; updated = [] }
  compare_resources (r ∷ r1) (s ∷ r2) = compare_loops (r ∷ r1) (s ∷ r2)

unfoldable pub compare_routes : (Route → Option String) → List Route → List Route → Changes Route
unfolding compare_resources
compare_routes marshal = compare_resources (λ r. r.id) marshal

unfoldable pub compare_upstreams :
    (Upstream → Option String) → List Upstream → List Upstream → Changes Upstream
unfolding compare_resources
compare_upstreams marshal = compare_resources (λ u. u.id) marshal
