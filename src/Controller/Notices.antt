-- ===== src/Controller/Notices.antt =====
-- Whom Reconcile of controller/controllers/amesh/ameshpluginconfig_controller.go tells of a change,
-- case by case, and the status that it records.
use amesh.Prelude.{
  String, Bool, true, false, not, ◌&&◌, List, [], Option, delete, is_some, Result, ok, err, panic,
  if◌then◌else◌,
}
use amesh.Controller.{PodDiff, index_pods}
use amesh.Controller.Selectors.{AmeshPluginConfigResource, SelectorApi}
use amesh.Controller.Reconciler.{
  Reconciler, Reconciled, Request, request_key, Cluster, send_plugins_configs, record_status,
}

module _ {Selector Receiver : Type 0} (api : SelectorApi Selector)
    (cluster : Cluster Selector) where
  -- the pods that the old selector takes are told of a deleted config, and the selector is deleted
  unfoldable pub notify_deleted :
      Request → Reconciler Selector Receiver → Result (List String) → Reconciled Selector Receiver
  unfolding send_plugins_configs index_pods
  notify_deleted req r panic = record { state = r; end = panic }
  notify_deleted req r (err message) = record { state = r; end = err message }
  notify_deleted req r (ok pods) =
      let sent = send_plugins_configs req.namespace (index_pods [] pods) r in
      record {
        state = record sent { selector_cache = delete (request_key req) sent.selector_cache };
        end = ok tt;
      }

  -- the first of the four cases: no old selector, and the new one is nil
  unfoldable pub notify_all_pods :
      Bool → Request → Reconciler Selector Receiver → Reconciled Selector Receiver
  unfolding send_plugins_configs index_pods
  notify_all_pods changed req r =
      if changed
      then elim (cluster.list_pods req.namespace api.everything) [
        | panic ↦ record { state = r; end = panic }
        | err message ↦ record { state = r; end = err message }
        | ok pods ↦ record {
          state = send_plugins_configs req.namespace (index_pods [] pods) r;
          end = ok tt;
        }
      ]
      else record { state = r; end = ok tt }

  -- The three other cases, by whether there was an old selector and whether the new one is nil.
  unfoldable pub notify_diff :
      Bool
      → Bool
      → Bool
      → Request
      → PodDiff
      → Reconciler Selector Receiver
      → Reconciler Selector Receiver
  unfolding send_plugins_configs
  notify_diff false new_nil changed req d r =
      let gone = send_plugins_configs req.namespace d.only_in_old r in
      if changed
      then send_plugins_configs req.namespace d.only_in_new
          (send_plugins_configs req.namespace d.both gone)
      else gone
  notify_diff true true changed req d r =
      let added = send_plugins_configs req.namespace d.only_in_new r in
      if changed
      then send_plugins_configs req.namespace d.both
          (send_plugins_configs req.namespace d.only_in_old added)
      else added
  notify_diff true false changed req d r =
      let gone = send_plugins_configs req.namespace d.only_in_old r in
      let added = send_plugins_configs req.namespace d.only_in_new gone in
      if changed then send_plugins_configs req.namespace d.both added else added

  -- the four cases
  unfoldable pub notify_pods :
      Option Selector
      → Selector
      → Bool
      → Request
      → PodDiff
      → Reconciler Selector Receiver
      → Reconciled Selector Receiver
  unfolding notify_all_pods notify_diff
  notify_pods old_selector new_selector changed req d r =
      if not (is_some old_selector) && api.is_nil new_selector
      then notify_all_pods changed req r
      else record {
        state = notify_diff (is_some old_selector) (api.is_nil new_selector) changed req d r;
        end = ok tt;
      }

  -- recordStatus, unless the notification has failed
  unfoldable pub finish :
      AmeshPluginConfigResource → Reconciled Selector Receiver → Reconciled Selector Receiver
  unfolding record_status
  finish resource done = elim done.end [
    | panic ↦ done
    | err message ↦ done
    | ok _ ↦ record { state = record_status cluster resource done.state; end = ok tt }
  ]
