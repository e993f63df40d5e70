-- ===== src/Xds/Data.antt =====
-- GetData of pkg/amesh/provisioner/xds.go and internalDataHandler of pkg/amesh/agent.go: what the
-- status server shows. json.MarshalIndent is a parameter at each of its types.
use Prim.Native.String.{◌++◌ as ◌+++◌}
use amesh.Prelude.{
  ℕ, String, Bool, List, [], ◌∷◌, Option, none, some, Map, insert, Result, ok, err, panic, ◌>>=◌,
  ◌==◌, if◌then◌else◌,
}
use amesh.Apisix.Plugin.{ApisixPlugin}
use amesh.Apisix.Route.{Route}
use amesh.Apisix.Upstream.{Upstream}
use amesh.Amesh.{AmeshProvisioner, get_plugins}
use amesh.Xds.Connection.{Connection}
use amesh.Xds.Provisioner.{XdsProvisioner}

pub record XdsProvisionerStatus : Type 0 where
  pub xds_connected : Bool
  pub xds_provisioner_ready : Bool
  pub amesh_connected : Bool
  pub amesh_provisioner_ready : Bool
  pub sds_connected : Bool

pub record Indent : Type 0 where
  pub status : XdsProvisionerStatus → Result String
  pub routes : Map Route → Result String
  pub upstreams : Map Upstream → Result String
  pub plugins : Map ApisixPlugin → Result String

-- for _, route := range p.routes { routes[route.Id] = route }
unfoldable pub routes_by_id : Map Route → List Route → Map Route
routes_by_id m [] = m
routes_by_id m (route ∷ routes) = routes_by_id (insert route.id route m) routes

unfoldable pub upstreams_by_id : Map Upstream → Map Upstream → Map Upstream
upstreams_by_id m [] = m
upstreams_by_id m ((name, upstream) ∷ upstreams) =
    upstreams_by_id (insert upstream.id upstream m) upstreams

-- The status reads fields of the Amesh provisioner, which panics if there is none.
unfoldable pub status_of : Option AmeshProvisioner → Connection → Result XdsProvisionerStatus
status_of none c = panic
status_of (some amesh) c = ok (record {
  xds_connected = c.ads_connected;
  xds_provisioner_ready = c.ready;
  amesh_connected = amesh.connected;
  amesh_provisioner_ready = amesh.ready;
  sds_connected = c.sds_connected;
})

unfoldable pub get_data : Indent → XdsProvisioner → Connection → String → Result String
unfolding routes_by_id upstreams_by_id status_of
get_data indent p c data_type =
    if data_type == "status"
    then status_of p.amesh c >>= indent.status
    else if data_type == "routes"
    then indent.routes (routes_by_id [] p.routes)
    else if data_type == "upstreams"
    then indent.upstreams (upstreams_by_id [] p.upstreams)
    else if data_type == "plugins"
    then get_plugins p.amesh >>= indent.plugins
    else ok ("{\"error\": \"unknown data type " +++ (data_type +++ "\"}"))

-- the code and the body of an answer
pub record Reply : Type 0 where
  pub code : ℕ
  pub body : String

-- the answer of internalDataHandler to what GetData returns
unfoldable pub data_reply : Result String → Result Reply
data_reply panic = panic
data_reply (err message) =
    ok (record { code = 500; body = "{\"error\": \"" +++ (message +++ "\"}") })
data_reply (ok body) = ok (record { code = 200; body = body })

unfoldable pub internal_data_handler : Indent → XdsProvisioner → Connection → String → Result Reply
unfolding get_data data_reply
internal_data_handler indent p c data_type = data_reply (get_data indent p c data_type)
