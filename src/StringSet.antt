-- ===== src/StringSet.antt =====
-- pkg/amesh/util/string_set.go: a set of texts as a map, and its sorted slice.
pub mod Sorted
use amesh.Prelude.{
  String, Bool, true, false, not, List, [], ◌∷◌, Map, lookup, insert, is_some, keys, length, eqb,
  if◌then◌else◌,
}
use amesh.Prelude.Text.{text_le}

abbrev pub StringSet : Type 0
StringSet = Map (Unit {0})

unfoldable pub add : String → StringSet → StringSet
add e set = insert e tt set

-- for e := range from { if _, ok := in[e]; !ok { return false } }
unfoldable pub all_in : List String → StringSet → Bool
all_in [] set = true
all_in (e ∷ es) set =
    let rest = all_in es set in if not (is_some (lookup e set)) then false else rest

unfoldable pub equals : StringSet → StringSet → Bool
unfolding all_in
equals set set2 =
    if not (eqb (length set) (length set2))
    then false
    else if not (all_in (keys set2) set)
    then false
    else all_in (keys set) set2

unfoldable pub strings : StringSet → List String
strings set = keys set

-- sort.Strings
unfoldable pub insert_sorted : String → List String → List String
insert_sorted e [] = e ∷ []
insert_sorted e (x ∷ xs) =
    let rest = insert_sorted e xs in if text_le e x then e ∷ x ∷ xs else x ∷ rest

unfoldable pub sort_strings : List String → List String
unfolding insert_sorted
sort_strings [] = []
sort_strings (x ∷ xs) = insert_sorted x (sort_strings xs)

unfoldable pub ordered_strings : StringSet → List String
unfolding strings sort_strings
ordered_strings set = sort_strings (strings set)
