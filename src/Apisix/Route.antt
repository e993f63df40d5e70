-- ===== src/Apisix/Route.antt =====
-- pkg/apisix/route.go: the route and its copy.
use amesh.Prelude.{ℤ, pos, String, Bool, List, [], ◌∷◌, ◌++◌, Option, Map, insert}
use amesh.Apisix.Var.{Var}
use amesh.Apisix.Plugin.{Plugin}
use amesh.Apisix.Upstream.{Timeout}

abbrev pub route_disable : ℤ
route_disable = pos 0

abbrev pub route_enable : ℤ
route_enable = pos 1

pub record Route : Type 0 where
  pub uris : List String
  pub name : String
  pub id : String
  pub desc : String
  pub priority : ℤ
  pub methods : List String
  pub hosts : List String
  pub remote_addrs : List String
  pub vars : List Var
  pub plugins : Map Plugin
  pub service_id : String
  pub upstream_id : String
  pub status : ℤ
  pub timeout : Option Timeout
  pub enable_websocket : Bool
  pub labels : Map String
  pub create_time : ℤ
  pub update_time : ℤ

-- for _, val := range vals { out = append(out, val) }
unfoldable pub append_all : List String → List String → List String
append_all out [] = out
append_all out (v ∷ vals) = append_all (out ++ v ∷ []) vals

-- for k, v := range m { out[k] = v }
unfoldable pub insert_all {ℓ} : {V : Type ℓ} → Map V → Map V → Map V
insert_all out [] = out
insert_all out ((k, v) ∷ m) = insert_all (insert k v out) m

unfoldable pub copy : Route → Route
unfolding append_all insert_all
copy route = record route {
  uris = append_all [] route.uris;
  methods = append_all [] route.methods;
  hosts = append_all [] route.hosts;
  plugins = insert_all [] route.plugins;
  labels = insert_all [] route.labels;
}
