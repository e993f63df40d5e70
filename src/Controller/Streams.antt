-- ===== src/Controller/Streams.antt =====
-- controller/pkg/instance_manager.go and controller/pkg/grpc_server.go: the streams to the agents. An
-- instance stands for its channel, and a stream is known by the number of its instance. The errors
-- keep the message that they are made of.
use Prim.Native.String.{◌++◌ as ◌+++◌}
use amesh.Prelude.{
  ℕ, suc, ◌+◌, String, List, [], ◌∷◌, ◌++◌, map, Option, none, some, Map, lookup, insert, delete,
  keys, eqb, Result, ok, err, panic, ◌>>=◌, if◌then◌else◌,
}
use amesh.Amesh.{AmeshPlugin, AmeshPluginConfig, PluginsResponse}
use amesh.Controller.{AmeshPluginConfigPlugin}
use amesh.Controller.Reconciler.{PodPluginConfig, UpdatePodPluginConfigEvent}

-- The instances by the key of their pod, and how often the collector was told of one more and of one
-- less.
pub record InstanceManager : Type 0 where
  pub instances : Map ℕ
  pub increments : ℕ
  pub decrements : ℕ

abbrev pub new_instance_manager : InstanceManager
new_instance_manager = record { instances = []; increments = 0; decrements = 0 }

unfoldable pub get_instance : String → InstanceManager → Option ℕ
get_instance key m = lookup key m.instances

unfoldable pub add_instance : String → ℕ → InstanceManager → InstanceManager
add_instance key stream m = record m {
  instances = insert key stream m.instances;
  increments = m.increments + 1;
}

unfoldable pub delete_instance : String → InstanceManager → InstanceManager
delete_instance key m = record m {
  instances = delete key m.instances;
  decrements = m.decrements + 1;
}

-- The state of GRPCController: the instances; the streams that are served, each with its pod;
-- `waiting` has a stream once for each goroutine that is about to send on its channel; `next` is the
-- number of the next stream, and `responses` what was sent.
pub record GrpcController : Type 0 where
  pub manager : InstanceManager
  pub streams : List (ℕ × String)
  pub waiting : List ℕ
  pub next : ℕ
  pub responses : List (ℕ × PluginsResponse)

abbrev pub new_grpc_controller : GrpcController
new_grpc_controller = record {
  manager = new_instance_manager;
  streams = [];
  waiting = [];
  next = 0;
  responses = [];
}

-- for podName := range updateEvent.Pods
unfoldable pub notify_loop : String → List String → GrpcController → GrpcController
unfolding get_instance
notify_loop ns [] c = c
notify_loop ns (pod ∷ pods) c = elim (get_instance (ns +++ ("/" +++ pod)) c.manager) [
  | none ↦ notify_loop ns pods c
  | some stream ↦ notify_loop ns pods (record c { waiting = c.waiting ++ stream ∷ [] })
]

unfoldable pub notify_pod_change : UpdatePodPluginConfigEvent → GrpcController → GrpcController
unfolding notify_loop
notify_pod_change event c = notify_loop event.namespace (keys event.pods) c

abbrev pub to_plugin : AmeshPluginConfigPlugin → AmeshPlugin
to_plugin plugin = record { type = plugin.type; name = plugin.name; config = plugin.config }

abbrev pub to_plugin_config : PodPluginConfig → AmeshPluginConfig
to_plugin_config config = record {
  name = config.name;
  plugins = map to_plugin config.plugins;
  version = config.version;
}

-- the response that sendPodPluginConfig makes of what GetPodPluginConfigs returns
unfoldable pub plugins_response : List PodPluginConfig → PluginsResponse
plugins_response configs = record { error_message = none; plugins = map to_plugin_config configs }

-- sendPodPluginConfig: `answer` is what GetPodPluginConfigs returns and `sent` what Send returns.
unfoldable pub send_pod_plugin_config :
    Result (List PodPluginConfig) → Result (Unit {0}) → Result PluginsResponse
unfolding plugins_response
send_pod_plugin_config answer sent = do configs ← answer; _ ← sent; ok (plugins_response configs)

-- the streams without one
unfoldable pub close : ℕ → List (ℕ × String) → List (ℕ × String)
close stream [] = []
close stream ((other, key) ∷ streams) =
    let rest = close stream streams in if eqb other stream then rest else (other, key) ∷ rest

-- StreamPlugins returns: the deferred call deletes the instance of the key.
unfoldable pub end_stream : ℕ → String → GrpcController → GrpcController
unfolding delete_instance close
end_stream stream key c = record c {
  manager = delete_instance key c.manager;
  streams = close stream c.streams;
}

-- The stream after a response was tried: it goes on, or StreamPlugins returns the error.
unfoldable pub after_send : ℕ → String → Result PluginsResponse → GrpcController → GrpcController
unfolding end_stream
after_send stream key panic c = end_stream stream key c
after_send stream key (err message) c = end_stream stream key c
after_send stream key (ok response) c = record c {
  responses = c.responses ++ (stream, response) ∷ [];
}

-- StreamPlugins up to its loop
unfoldable pub start_stream :
    String → Result (List PodPluginConfig) → Result (Unit {0}) → GrpcController → GrpcController
unfolding add_instance send_pod_plugin_config after_send
start_stream key answer sent c =
    let served = record c {
      manager = add_instance key c.next c.manager;
      streams = (c.next, key) ∷ c.streams;
      next = suc c.next;
    } in
    after_send c.next key (send_pod_plugin_config answer sent) served

-- the list without the first occurrence of the number
unfoldable pub take_one : ℕ → List ℕ → List ℕ
take_one stream [] = []
take_one stream (other ∷ waiting) =
    let rest = take_one stream waiting in if eqb other stream then waiting else other ∷ rest

-- a round of the loop: a goroutine's send on the channel is received
unfoldable pub update_stream :
    ℕ → String → Result (List PodPluginConfig) → Result (Unit {0}) → GrpcController → GrpcController
unfolding send_pod_plugin_config after_send take_one
update_stream stream key answer sent c =
    after_send stream key (send_pod_plugin_config answer sent)
      (record c { waiting = take_one stream c.waiting })
