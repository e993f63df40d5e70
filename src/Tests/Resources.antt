-- ===== src/Tests/Resources.antt =====
-- Sample routes, upstreams and a storage for the tests.
use amesh.Prelude.{
  ℤ, pos, String, false, List, [], ◌∷◌, none, some, Map, lookup, insert, delete, lookup-insert,
  lookup-delete,
}
use amesh.Apisix.Route.{Route}
use amesh.Apisix.Upstream.{Upstream, Node, protocol_scheme_http}
use amesh.Manifest.{Marshal}
use amesh.Agent.{Storage, Contract, Agent}

abbrev pub plain_route : String → String → Route
plain_route id name = record {
  uris = "/*" ∷ [];
  name = name;
  id = id;
  desc = "";
  priority = pos 0;
  methods = [];
  hosts = [];
  remote_addrs = [];
  vars = [];
  plugins = [];
  service_id = "";
  upstream_id = "u";
  status = pos 1;
  timeout = none;
  enable_websocket = false;
  labels = [];
  create_time = pos 0;
  update_time = pos 0;
}

abbrev pub node : String → ℤ → Node
node host port = record { host = host; port = port; weight = pos 100; metadata = none }

abbrev pub plain_upstream : String → List Node → Upstream
plain_upstream id nodes = record {
  create_time = pos 0;
  update_time = pos 0;
  nodes = nodes;
  retries = pos 0;
  timeout = none;
  tls = none;
  keepalive_pool = none;
  type = "roundrobin";
  check = none;
  hash_on = "";
  key = "";
  scheme = protocol_scheme_http;
  labels = [];
  pass_host = "";
  upstream_host = "";
  name = id;
  desc = "";
  id = id;
}

-- A storage that is a map, and an encoder that keeps the name.
abbrev pub map_storage : Storage (Map String)
map_storage = record { store = insert; delete = delete }

abbrev pub map_contract : Contract (Map String) map_storage
map_contract = record {
  read = lookup;
  read-store = λ k j v s. lookup-insert k j v s;
  read-delete = λ k j s. lookup-delete k j s;
}

abbrev pub route_name : Route → String
route_name r = r.name

abbrev pub upstream_name : Upstream → String
upstream_name u = u.name

abbrev pub by_name : Marshal
by_name = record { route = λ r. some (route_name r); upstream = λ u. some (upstream_name u) }

abbrev pub no_data : Agent (Map String)
no_data = record { data_storage = []; version_storage = [] }
