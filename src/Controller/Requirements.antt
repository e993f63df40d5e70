-- ===== src/Controller/Requirements.antt =====
-- LabelSelectorEqual of controller/utils/compare.go, which nothing calls. The requirements of a
-- selector and the comparison of their sets of values are those of Kubernetes.
use Prim.Native.String.{◌++◌ as ◌+++◌}
use amesh.Prelude.{
  String, Bool, true, false, not, ◌&&◌, List, [], ◌∷◌, none, some, Map, lookup, insert, length, eqb,
  if◌then◌else◌,
}
use amesh.StringSet.{StringSet}

-- labels.Requirement
pub record Requirement : Type 0 where
  pub key : String
  pub operator : String
  pub values : StringSet

-- what Requirements() returns: the requirements, and whether the selector can select anything
pub record Requirements : Type 0 where
  pub requirements : List Requirement
  pub selectable : Bool

unfoldable pub index_requirements : Map StringSet → List Requirement → Map StringSet
index_requirements m [] = m
index_requirements m (req ∷ reqs) =
    index_requirements (insert (req.key +++ req.operator) req.values m) reqs

-- a comparison of two Booleans
abbrev pub same_bool : Bool → Bool → Bool
same_bool true b = b
same_bool false b = not b

module _ (equal : StringSet → StringSet → Bool) where
  -- the loop over the new map
  unfoldable pub same_requirements : Map StringSet → Map StringSet → Bool
  same_requirements old_map [] = true
  same_requirements old_map ((key, new_values) ∷ rest) =
      let later = same_requirements old_map rest in
      elim (lookup key old_map) [
        | none ↦ false
        | some old_values ↦ if not (equal new_values old_values) then false else later
      ]

  unfoldable pub label_selector_equal : Requirements → Requirements → Bool
  unfolding index_requirements same_requirements
  label_selector_equal old new =
      if not (same_bool old.selectable new.selectable)
      then false
      else if eqb (length old.requirements) 0 && eqb (length new.requirements) 0
      then true
      else if not (eqb (length old.requirements) (length new.requirements))
      then false
      else same_requirements (index_requirements [] old.requirements)
          (index_requirements [] new.requirements)
