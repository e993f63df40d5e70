-- ===== src/System.antt =====
-- The running agent: the rounds of translateLoop and UpdateRoutesPlugin of
-- pkg/amesh/provisioner/xds.go, updatePlugins of amesh.go, and Run of pkg/amesh/agent.go, which
-- stores each batch of events that it receives. A batch is stored before the next one is made.
pub mod Quiet
pub mod Routes
pub mod Secrets
pub mod Upstreams
use amesh.Prelude.{String, ◌≡◌, List, [], ◌∷◌, Option, some, Result, ok}
use amesh.Apisix.Plugin.{Config}
use amesh.Manifest.{Event}
use amesh.Agent.{Storage, Agent, store_events}
use amesh.Amesh.{AmeshProvisioner, PluginsResponse, update_plugins}
use amesh.Xds.Envoy.{DiscoveryResponse}
use amesh.Xds.Externals.{Externals}
use amesh.Xds.Provisioner.{XdsProvisioner}
use amesh.Xds.Translate.{Round, translate_round, update_routes_plugin}

pub record System (S : Type 0) : Type 0 where
  pub provisioner : XdsProvisioner
  pub ver_info : String
  pub agent : Agent S

module _ (ext : Externals) (unmarshal : String → Option Config) {S : Type 0}
    (storage : Storage S) where
  -- the batches that Run receives, stored one after the other
  unfoldable pub store_batches : String → List (List Event) → Agent S → Agent S
  store_batches timestamp [] g = g
  store_batches timestamp (events ∷ rest) g =
      store_batches timestamp rest (store_events storage ext.marshal timestamp events g)

  -- A response is translated and its events are stored; a response of the controller is taken; the
  -- plugins are written into the routes and the events of that are stored.
  pub data Step (x : System S) : System S → Type 0 where
    respond :
        (timestamp : String) (resp : DiscoveryResponse) (r : Round ext)
        → translate_round ext resp x.ver_info x.provisioner ≡ ok r
        → Step x (record {
          provisioner = r.state;
          ver_info = r.ver_info;
          agent = store_batches timestamp r.events x.agent;
        })
    receive :
        (resp : PluginsResponse) (a : AmeshProvisioner)
        → x.provisioner.amesh ≡ some a
        → Step x (record x {
          provisioner = record x.provisioner { amesh = some (update_plugins unmarshal resp a) };
        })
    patch :
        (timestamp : String) (p : XdsProvisioner) (events : List Event)
        → update_routes_plugin ext x.provisioner ≡ ok (p, events)
        → Step x (record x {
          provisioner = p;
          agent = store_events storage ext.marshal timestamp events x.agent;
        })

  pub data Reach (x : System S) : System S → Type 0 where
    here : Reach x x
    next : {y z : System S} → Reach x y → Step y z → Reach x z
