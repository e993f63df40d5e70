-- ===== src/Xds/Externals.antt =====
-- What the translators of pkg/amesh/provisioner call and this repository does not hold: id.GenID of
-- api7/gopkg, the names of well-known filters, the protobuf decoders (`none` is a decoding error),
-- the print of a BoolValue, and encoding/json on the generated resources.
use amesh.Prelude.{String, Bool, Option, Result}
use amesh.Apisix.Upstream.{Upstream}
use amesh.Manifest.{Marshal}
use amesh.Xds.Envoy.{
  Any, HttpFault, RouteConfiguration, Cluster, ClusterLoadAssignment, Listener, RouteSpecifier,
  TlsSecret,
}

pub record Externals : Type 0 where
  pub gen_id : String → String
  pub fault_filter : String
  pub http_connection_manager : String
  pub unmarshal_fault : Any → Option HttpFault
  pub unmarshal_route_configuration : Any → Option RouteConfiguration
  pub unmarshal_cluster : Any → Option Cluster
  pub unmarshal_load_assignment : Any → Option ClusterLoadAssignment
  pub unmarshal_listener : Any → Option Listener
  pub unmarshal_connection_manager : Any → Result RouteSpecifier
  pub unmarshal_secret : Any → Option TlsSecret
  pub show_bool_value : Option Bool → String
  pub marshal : Marshal
  -- json.Marshal followed by json.Unmarshal into a new upstream
  pub json_copy : Upstream → Option Upstream
