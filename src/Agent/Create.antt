-- ===== src/Agent/Create.antt =====
-- NewAgent of pkg/amesh/agent.go. The id of the run, the clock and the two zones are parameters.
use amesh.Prelude.{ℤ, String, List, Result, ok, ◌>>=◌}
use amesh.Agent.{Agent}
use amesh.Agent.Server.{Interface, get_ip_addr, get_namespace}
use amesh.Xds.Create.{Config, Created, new_xds_provisioner}

-- the arguments of NewAgent
pub record AgentOptions : Type 0 where
  pub src : String
  pub amesh_grpc : String
  pub sync_interval : ℤ
  pub log_level : String
  pub log_output : String

-- the agent, with its provisioner, its source and its version
pub record CreatedAgent (S : Type 0) : Type 0 where
  pub agent : Agent S
  pub created : Created
  pub xds_source : String
  pub version : ℤ

unfoldable pub provisioner_config : (String → String) → String → String → AgentOptions → Config
unfolding get_namespace
provisioner_config env run_id ip_addr options = record {
  run_id = run_id;
  log_level = options.log_level;
  log_output = options.log_output;
  xds_config_source = options.src;
  amesh_config_source = options.amesh_grpc;
  sync_internal = options.sync_interval;
  namespace = get_namespace env;
  ip_address = ip_addr;
}

unfoldable pub new_agent :
    {S : Type 0}
    → (String → String)
    → (String → Result (Unit {0}))
    → Result (List Interface)
    → String
    → ℤ
    → S
    → S
    → AgentOptions
    → Result (CreatedAgent S)
unfolding get_ip_addr provisioner_config new_xds_provisioner
new_agent env logger interfaces run_id now data_zone version_zone options = do
  ip_addr ← get_ip_addr interfaces
  created ← new_xds_provisioner env logger (provisioner_config env run_id ip_addr options)
  _ ← logger "sidecar"
  ok (record {
    agent = record { data_storage = data_zone; version_storage = version_zone };
    created = created;
    xds_source = options.src;
    version = now;
  })
