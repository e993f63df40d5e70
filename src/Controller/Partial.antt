-- ===== src/Controller/Partial.antt =====
-- A pod with several configs of which one changes: sendPodPluginConfig of controller/pkg/grpc_server.go
-- sends all of them, and updatePlugins of pkg/amesh/provisioner/amesh.go keeps the newer ones alone.
use amesh.Prelude.{
  ℕ, String, false, ◌≡◌, refl, List, [], ◌∷◌, ◌++◌, map, Option, some, lookup, ok, All, arith,
}
use mathlib.Core.List.{append-nil}
use amesh.Apisix.Plugin.{Config}
use amesh.Apisix.Compare.Latest.{latest}
use amesh.Amesh.{AmeshProvisioner, is_stale, update_plugins}
use amesh.Amesh.Repeat.{recorded_stale}
use amesh.Amesh.Update.{decode, fresh_plugins, is_newer-eq-not, lookup-update_plugins}
use amesh.Controller.Reconciler.{PodPluginConfig}
use amesh.Controller.Streams.{
  GrpcController, to_plugin, to_plugin_config, plugins_response, send_pod_plugin_config, after_send,
  update_stream,
}

-- The agent has recorded the config at its version.
abbrev pub IsRecorded : AmeshProvisioner → PodPluginConfig → Type 0
IsRecorded agent config = lookup config.name agent.config_revision ≡ some config.version

module _ (unmarshal : String → Option Config) (agent : AmeshProvisioner) where
  fresh_plugins-recorded :
      (configs : List PodPluginConfig)
      → All (IsRecorded agent) configs
      → fresh_plugins unmarshal agent.config_revision (map to_plugin_config configs) ≡ []
  unfolding fresh_plugins
  fresh_plugins-recorded [] h = refl
  fresh_plugins-recorded (config ∷ configs) h = ground (
    arith,
    fresh_plugins-recorded configs h.1,
    is_newer-eq-not unmarshal agent.config_revision (to_plugin_config config),
    recorded_stale unmarshal agent.config_revision (to_plugin_config config) h.0,
  )

  fresh_plugins-changed :
      (before after : List PodPluginConfig) (changed : PodPluginConfig)
      → All (IsRecorded agent) before
      → All (IsRecorded agent) after
      → is_stale agent.config_revision (to_plugin_config changed) ≡ false
      → fresh_plugins unmarshal agent.config_revision
          (map to_plugin_config (before ++ changed ∷ after))
        ≡ map to_plugin changed.plugins
  unfolding fresh_plugins is_stale
  fresh_plugins-changed [] after changed hb ha new =
      rw
        (
          is_newer-eq-not unmarshal agent.config_revision (to_plugin_config changed),
          new,
          fresh_plugins-recorded after ha,
        )
        (append-nil _)
  fresh_plugins-changed (config ∷ before) after changed hb ha new = ground (
    arith,
    fresh_plugins-changed before after changed hb.1 ha new,
    is_newer-eq-not unmarshal agent.config_revision (to_plugin_config config),
    recorded_stale unmarshal agent.config_revision (to_plugin_config config) hb.0,
  )

  -- If the agent of a pod has recorded all configs of the pod at their versions but one, which is
  -- newer than what the agent has recorded, then the next notification of its stream, once found and
  -- sent, leaves the agent only the plugins of the changed config that parse, each name with the last
  -- of them: the plugins of all the other configs are dropped.
  pub update_stream-drops :
      (stream : ℕ) (key : String) (before after : List PodPluginConfig) (changed : PodPluginConfig)
      (c : GrpcController) (name : String)
      → All (IsRecorded agent) before
      → All (IsRecorded agent) after
      → is_stale agent.config_revision (to_plugin_config changed) ≡ false
      → let configs = before ++ changed ∷ after in
        ((update_stream stream key (ok configs) (ok tt) c).responses
          ≡ c.responses ++ (stream, plugins_response configs) ∷ [])
        × (lookup name (update_plugins unmarshal (plugins_response configs) agent).config
            ≡ latest (λ q. q.name) name (decode unmarshal (map to_plugin changed.plugins)))
  unfolding update_stream send_pod_plugin_config after_send plugins_response
  update_stream-drops stream key before after changed c name hb ha new = (
    refl,
    rw
        (
          lookup-update_plugins unmarshal name (plugins_response (before ++ changed ∷ after)) agent
              refl,
          fresh_plugins-changed before after changed hb ha new,
        )
        refl,
  )
