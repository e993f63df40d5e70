-- ===== src/Controller/Entries.antt =====
-- What the comparisons of labels and of plugins in controller/utils/compare.go establish.
use amesh.Prelude.{
  String, true, ◌≡◌, refl, List, [], ◌∷◌, Option, none, some, Map, lookup, insert, lookup-insert,
  length, eq_iff, arith, Option-cases, inl, inr,
}
use amesh.Apisix.Compare.Latest.{latest, or_else}
use amesh.Controller.{
  AmeshPluginConfigPlugin, plugin_key, index_configs, same_entries, plugins_config_equal,
  labels_equal,
}

same_entries-lookup :
    (old new : Map String) (k v : String)
    → same_entries old new ≡ true
    → lookup k new ≡ some v
    → lookup k old ≡ some v
unfolding same_entries lookup
same_entries-lookup old [] k v h e = absurd (cc e)
same_entries-lookup old ((j, w) ∷ new) k v h e = elim (Option-cases (lookup j old)) [
  | inl l ↦ absurd (ground arith)
  | inr (u, l) ↦ ground (arith, same_entries-lookup old new k v, eq_iff j k, eq_iff w u)
]

-- Label maps that are found equal have one size, and each label of the new one is in the old one
-- with its value.
pub labels_equal-lookup :
    (old new : Map String)
    → labels_equal old new ≡ true
    → (length old ≡ length new) × ((k v : String) → lookup k new ≡ some v → lookup k old ≡ some v)
unfolding labels_equal
labels_equal-lookup old new h =
    (ground arith, λ k v e. same_entries-lookup old new k v (ground arith) e)

abbrev pub config_of : Option AmeshPluginConfigPlugin → Option String
config_of none = none
config_of (some p) = some p.config

lookup-index_configs :
    (k : String) (m : Map String) (ps : List AmeshPluginConfigPlugin)
    → lookup k (index_configs m ps) ≡ or_else (config_of (latest plugin_key k ps)) (lookup k m)
unfolding index_configs latest
lookup-index_configs k m [] = refl
lookup-index_configs k m (p ∷ ps) = ground (
  arith,
  lookup-index_configs k (insert (plugin_key p) p.config m) ps,
  lookup-insert (plugin_key p) k p.config m,
)

lookup-configs_empty :
    (k : String) (ps : List AmeshPluginConfigPlugin)
    → lookup k (index_configs [] ps) ≡ config_of (latest plugin_key k ps)
unfolding lookup
lookup-configs_empty k ps = ground (arith, lookup-index_configs k [] ps)

-- Plugin lists that are found equal have one length, and the last new plugin of each type and name
-- has the configuration of the last old one.
pub plugins_config_equal-latest :
    (old new : List AmeshPluginConfigPlugin)
    → plugins_config_equal old new ≡ true
    → (length old ≡ length new)
      × ((k v : String)
          → config_of (latest plugin_key k new) ≡ some v
          → config_of (latest plugin_key k old) ≡ some v)
unfolding plugins_config_equal
plugins_config_equal-latest old new h = (
  ground arith,
  λ k v e. rw (← lookup-configs_empty k old) (
      same_entries-lookup (index_configs [] old) (index_configs [] new) k v (ground arith)
        (rw lookup-configs_empty e)),
)
