-- ===== src/Tests/Streaming.antt =====
-- Tests of the streams to the agents.
use amesh.Prelude.{
  insert, true, ℕ, ◌+◌, String, ◌≡◌, refl, List, [], ◌∷◌, ◌++◌, none, some, lookup, length, ok,
  arith,
}
use amesh.Apisix.Compare.Latest.{latest}
use amesh.StringSet.{add}
use amesh.Prelude.{map}
use amesh.Controller.Partial.{update_stream-drops}
use amesh.Amesh.{AmeshProvisioner, new_amesh_provisioner, is_stale, update_plugins}
use amesh.Amesh.Update.{decode}
use amesh.Tests.Plugins.{parse_any}
use amesh.Controller.{plugins_config_equal}
use amesh.Controller.Reconciler.{PodPluginConfig, UpdatePodPluginConfigEvent}
use amesh.Controller.Reconcile.{reconcile}
use amesh.Controller.Told.{reconcile-waiting}
use amesh.Tests.Reconciling.{api, web, resource, req, cluster, before, fresh}
use amesh.Controller.Streams.{
  GrpcController, new_grpc_controller, get_instance, start_stream, end_stream, update_stream,
  notify_pod_change, plugins_response, to_plugin,
}
use amesh.Controller.Served.{served, is_waiting, Reach, start, later, starts, ends}
use amesh.Controller.Sound.{Reach-registered}
use amesh.Controller.Agents.{end_stream-unregisters}

abbrev configs : List PodPluginConfig
configs =
    record {
      name = "shop/limits";
      plugins = record { type = "pre-req"; name = "limit-req"; config = "{}" } ∷ [];
      version = "100";
    }
    ∷ []

-- The agent of a pod connects twice; its first stream is found broken later.
abbrev twice : GrpcController
twice =
    start_stream "shop/web-0" (ok configs) (ok tt)
      (start_stream "shop/web-0" (ok configs) (ok tt) new_grpc_controller)

abbrev once : GrpcController
once = end_stream 0 "shop/web-0" twice

reached : Reach once
unfolding start_stream served
reached =
    later
      (later (later start (starts "shop/web-0" (ok configs) (ok tt)))
        (starts "shop/web-0" (ok configs) (ok tt)))
      (ends 0 "shop/web-0" refl)

Reach-registered_example :
    (once.manager.decrements + length once.streams ≡ once.manager.increments)
    × ((key : String) (stream : ℕ)
        → get_instance key once.manager ≡ some stream
        → served stream once.streams ≡ some key)
Reach-registered_example = Reach-registered reached

end_stream-unregisters_example :
    (served 1 once.streams ≡ some "shop/web-0")
    × (get_instance "shop/web-0" once.manager ≡ none)
    × (notify_pod_change (record { namespace = "shop"; pods = add "web-0" [] }) once ≡ once)
unfolding start_stream served
end_stream-unregisters_example =
    end_stream-unregisters 0 1 "shop" "web-0" twice refl (λ e. omega arith)

reconcile-waiting_example :
    (event : UpdatePodPluginConfigEvent) × ((reconcile api (cluster true) req before).state.sent
      ≡ before.sent ++ ("grpc", event) ∷ [])
    × (is_waiting 1 (notify_pod_change event twice).waiting ≡ true)
unfolding lookup plugins_config_equal start_stream insert amesh.StringSet.Sorted.has get_instance
reconcile-waiting_example =
    reconcile-waiting api (cluster true) req resource web before "grpc" ("web-0" ∷ "db-0" ∷ [])
      ("web-0" ∷ []) twice "web-0" 1 fresh refl refl refl refl refl refl refl

-- An agent that has recorded two configs; the second one is newer now.
abbrev recorded_agent : AmeshProvisioner
recorded_agent = record new_amesh_provisioner {
  config_revision = ("shop/limits", "100") ∷ ("shop/auth", "100") ∷ [];
}

abbrev new_auth : PodPluginConfig
new_auth = record {
  name = "shop/auth";
  plugins = record { type = "pre-req"; name = "auth"; config = "{}" } ∷ [];
  version = "101";
}

update_stream-drops_example :
    ((update_stream 1 "shop/web-0" (ok (configs ++ new_auth ∷ [])) (ok tt) twice).responses
      ≡ twice.responses ++ (1, plugins_response (configs ++ new_auth ∷ [])) ∷ [])
    × (lookup "limit-req"
          (update_plugins parse_any
            (plugins_response (configs ++ new_auth ∷ []))
            recorded_agent).config
        ≡ latest (λ q. q.name) "limit-req" (decode parse_any (map to_plugin new_auth.plugins)))
unfolding lookup is_stale
update_stream-drops_example =
    update_stream-drops parse_any recorded_agent 1 "shop/web-0" configs [] new_auth twice
      "limit-req" (refl, tt) tt refl
