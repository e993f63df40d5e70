-- ===== src/Controller.antt =====
-- controller/utils/compare.go: what the controller compares before it tells the agents of a change.
pub mod Pods
pub mod Entries
pub mod Requirements
pub mod Reconciler
pub mod Notices
pub mod Reconcile
pub mod Versions
pub mod Complete
pub mod Runs
pub mod Streams
pub mod Served
pub mod Sound
pub mod Agents
pub mod Partial
pub mod Told
pub mod Transparent
pub mod Notify
pub mod Notified
pub mod Forward
pub mod Configs
pub mod Selectors
use Prim.Native.String.{◌++◌ as ◌+++◌}
use amesh.Prelude.{
  String, Bool, true, false, not, List, [], ◌∷◌, Option, none, some, Map, lookup, insert, is_some,
  length, eqb, Result, ok, ◌>>=◌, ◌&&◌, ◌==◌, if◌then◌else◌,
}
use amesh.StringSet.{StringSet, add}

pub record AmeshPluginConfigPlugin : Type 0 where
  pub type : String
  pub name : String
  pub config : String

-- string(plugin.Type)+plugin.Name
abbrev pub plugin_key : AmeshPluginConfigPlugin → String
plugin_key plugin = plugin.type +++ plugin.name

-- for _, plugin := range plugins { m[key] = plugin.Config }
unfoldable pub index_configs : Map String → List AmeshPluginConfigPlugin → Map String
index_configs m [] = m
index_configs m (plugin ∷ rest) = index_configs (insert (plugin_key plugin) plugin.config m) rest

-- the loop over the new map
unfoldable pub same_entries : Map String → Map String → Bool
same_entries old [] = true
same_entries old ((key, new_value) ∷ rest) =
    let later = same_entries old rest in
    elim (lookup key old) [
      | none ↦ false
      | some old_value ↦ if not (new_value == old_value) then false else later
    ]

unfoldable pub plugins_config_equal :
    List AmeshPluginConfigPlugin → List AmeshPluginConfigPlugin → Bool
unfolding index_configs same_entries
plugins_config_equal old_plugins new_plugins =
    if not (eqb (length old_plugins) (length new_plugins))
    then false
    else same_entries (index_configs [] old_plugins) (index_configs [] new_plugins)

unfoldable pub labels_equal : Map String → Map String → Bool
unfolding same_entries
labels_equal old_labels new_labels =
    if not (eqb (length old_labels) (length new_labels))
    then false
    else same_entries old_labels new_labels

-- the three sets that DiffPods returns
pub record PodDiff : Type 0 where
  pub only_in_old : StringSet
  pub both : StringSet
  pub only_in_new : StringSet

-- for _, pod := range pods { m[pod.Name] = struct{}{} }
unfoldable pub index_pods : StringSet → List String → StringSet
index_pods m [] = m
index_pods m (pod ∷ pods) = index_pods (add pod m) pods

-- the loop over the old pods: both tests read the old map
unfoldable pub old_pods_loop : StringSet → List String → PodDiff → PodDiff
old_pods_loop old_map [] d = d
old_pods_loop old_map (pod ∷ pods) d = old_pods_loop old_map pods (
    if is_some (lookup pod old_map) && is_some (lookup pod old_map)
    then record d { both = add pod d.both }
    else record d { only_in_old = add pod d.only_in_old })

-- the loop over the new pods: both tests read the new map
unfoldable pub new_pods_loop : StringSet → List String → PodDiff → PodDiff
new_pods_loop new_map [] d = d
new_pods_loop new_map (pod ∷ pods) d = new_pods_loop new_map pods (
    if is_some (lookup pod new_map) && is_some (lookup pod new_map)
    then record d { both = add pod d.both }
    else record d { only_in_new = add pod d.only_in_new })

-- The lister is a parameter: the names of the pods of the namespace that a selector takes, or an
-- error. After an error the sets are empty.
unfoldable pub diff_pods :
    {Selector : Type 0} → (Selector → Result (List String)) → Selector → Selector → Result PodDiff
unfolding index_pods old_pods_loop new_pods_loop
diff_pods list old_selector new_selector = do
  old_pods ← list old_selector
  new_pods ← list new_selector
  ok (
      new_pods_loop (index_pods [] new_pods) new_pods (
        old_pods_loop (index_pods [] old_pods) old_pods
          (record { only_in_old = []; both = []; only_in_new = [] })))
