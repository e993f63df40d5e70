-- ===== src/Controller/Agents.antt =====
-- The streams of controller/pkg/grpc_server.go and the agents at their other ends.
use Prim.Native.String.{◌++◌ as ◌+++◌}
use amesh.Prelude.{
  ℕ, String, ◌≡◌, ◌≢◌, refl, List, [], ◌∷◌, ◌++◌, map, Option, none, some, lookup, insert, delete,
  lookup-delete, eqb_iff, eq_refl, ok, arith,
}
use amesh.Apisix.Plugin.{Config}
use amesh.Apisix.Compare.Latest.{latest}
use amesh.StringSet.{add}
use amesh.Amesh.{AmeshPlugin, AmeshProvisioner, update_plugins}
use amesh.Amesh.Update.{decode, fresh_plugins, lookup-update_plugins}
use amesh.Controller.Reconciler.{PodPluginConfig}
use amesh.Controller.Streams.{
  get_instance, delete_instance, GrpcController, notify_loop, notify_pod_change, to_plugin,
  to_plugin_config, plugins_response, send_pod_plugin_config, end_stream, after_send, update_stream,
}
use amesh.Controller.Served.{served, served-close}

-- When a stream of a pod ends while another stream of the same pod is served, no event about this
-- pod reaches the other one any more: no instance is registered for the pod.
pub end_stream-unregisters :
    (stream other : ℕ) (ns pod : String) (c : GrpcController)
    → served other c.streams ≡ some (ns +++ ("/" +++ pod))
    → other ≢ stream
    → let ended = end_stream stream (ns +++ ("/" +++ pod)) c in
      (served other ended.streams ≡ some (ns +++ ("/" +++ pod)))
      × (get_instance (ns +++ ("/" +++ pod)) ended.manager ≡ none)
      × (notify_pod_change (record { namespace = ns; pods = add pod [] }) ended ≡ ended)
unfolding end_stream delete_instance notify_pod_change notify_loop get_instance add insert
end_stream-unregisters stream other ns pod c s different =
    let key = ns +++ ("/" +++ pod) in
    let gone : lookup key (delete key c.manager.instances) ≡ none =
      rw (lookup-delete, eq_refl) refl in
    (
      ground (arith, served-close stream other c.streams, eqb_iff stream other),
      gone,
      rw (gone, notify_pod_change, notify_loop, get_instance) refl,
    )

-- the plugins of the configs, one after the other
unfoldable pub sent_plugins : List PodPluginConfig → List AmeshPlugin
sent_plugins [] = []
sent_plugins (config ∷ configs) = map to_plugin config.plugins ++ sent_plugins configs

fresh_plugins-sent :
    (unmarshal : String → Option Config) (configs : List PodPluginConfig)
    → fresh_plugins unmarshal [] (map to_plugin_config configs) ≡ sent_plugins configs
unfolding fresh_plugins sent_plugins lookup
fresh_plugins-sent unmarshal [] = refl
fresh_plugins-sent unmarshal (config ∷ configs) = rw (fresh_plugins-sent unmarshal configs) refl

-- A notification that a stream takes, if the pod's configs are found and can be sent, adds one
-- response for this stream. An agent that has recorded nothing yet has then for each name the last
-- of the pod's plugins that parses.
update_stream-plugins :
    (unmarshal : String → Option Config) (stream : ℕ) (key : String)
    (configs : List PodPluginConfig) (c : GrpcController) (agent : AmeshProvisioner) (name : String)
    → agent.config_revision ≡ []
    → let response = plugins_response configs in
      ((update_stream stream key (ok configs) (ok tt) c).responses
        ≡ c.responses ++ (stream, response) ∷ [])
      × (lookup name (update_plugins unmarshal response agent).config
          ≡ latest (λ q. q.name) name (decode unmarshal (sent_plugins configs)))
unfolding update_stream send_pod_plugin_config after_send plugins_response
update_stream-plugins unmarshal stream key configs c agent name fresh = (
  refl,
  rw
      (
        lookup-update_plugins unmarshal name (plugins_response configs) agent refl,
        fresh,
        fresh_plugins-sent unmarshal configs,
      )
      refl,
)
