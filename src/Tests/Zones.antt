-- ===== src/Tests/Zones.antt =====
-- Tests of the storage over a zone of nginx, and of the commands.
use amesh.Prelude.{
  ℕ, String, ◌≡◌, refl, [], ◌∷◌, Option, none, some, Map, lookup, insert, delete, lookup-insert,
  lookup-delete,
}
use amesh.Prelude.{List, Result, ok, panic, true, pos}
use amesh.Prelude.Text.{has_prefix}
use amesh.Agent.Server.{Interface, get_ip_addr}
use amesh.Agent.Create.{CreatedAgent, new_agent}
use amesh.Xds.Create.{amesh_of, new_xds_provisioner}
use amesh.Xds.Connection.{connects, try_connect, new_connection}
use amesh.Commands.{Config, running, started, run_command}
use amesh.Commands.Alone.{run_command-panics}
use amesh.Tests.Running.{IsOk, value_of, value_of_lem}
use amesh.Apisix.Compare.Latest.{latest}
use amesh.Manifest.{empty_manifest, generate_incremental_events}
use amesh.Agent.{store_events}
use amesh.Agent.Sync.{Mirrors}
use amesh.Agent.SharedDict.{shared_dict_storage, zone_storage, zone_contract, shared_dict-Mirrors}
use amesh.Tests.Resources.{route_name, upstream_name, by_name}
use amesh.Tests.Comparing.{first, first-IsServed}

-- A zone with room for everything.
abbrev dict_store : ℕ → String → ℕ → Option String → Map String → Map String
dict_store op key type none zone = delete key zone
dict_store op key type (some value) zone = insert key value zone

shared_dict-Mirrors_example :
    (after : Map String) × ((store_events
        (shared_dict_storage dict_store)
        by_name
        "1"
        (generate_incremental_events by_name (some first) (some empty_manifest))
        (record { data_storage = some []; version_storage = some [] })).data_storage
      ≡ some after)
    × Mirrors
        (zone_storage dict_store)
        (zone_contract dict_store lookup
          (λ k j v s. lookup-insert k j v s)
          (λ k j s. lookup-delete k j s))
        by_name
        route_name
        upstream_name
        (λ r. refl)
        (λ u. refl)
        first
        after
unfolding latest lookup
shared_dict-Mirrors_example =
    shared_dict-Mirrors dict_store lookup (λ k j v s. lookup-insert k j v s)
      (λ k j s. lookup-delete k j s) by_name route_name upstream_name (λ r. refl) (λ u. refl)
      empty_manifest first "1" [] [] (λ k u h. cc) first-IsServed
      (record { routes = λ k. refl; upstreams = λ k. refl })

abbrev no_env : String → String
no_env name = ""

abbrev quiet_logger : String → Result (Unit {0})
quiet_logger name = ok tt

abbrev interfaces : Result (List Interface)
interfaces = ok (record { name = "eth0"; addrs = ok ("10.0.0.7/24" ∷ []) } ∷ [])

abbrev flags : Config
flags = record {
  log_level = "info";
  log_output = "stderr";
  xds_config_source = "grpc://istiod:15010";
}

abbrev made : Result (CreatedAgent (Map String))
made = new_agent no_env quiet_logger interfaces "run" (pos 1) [] [] (record {
  src = "grpc://istiod:15010";
  amesh_grpc = "";
  sync_interval = pos 0;
  log_level = "info";
  log_output = "stderr";
})

made_ok : IsOk made
unfolding new_agent get_ip_addr new_xds_provisioner amesh_of
made_ok = tt

runs :
    run_command no_env quiet_logger interfaces "run" (pos 1) (ok tt) flags []
    ≡ running (value_of made made_ok)
unfolding run_command started
runs = rw (value_of_lem made made_ok) refl

run_command-panics_example :
    (has_prefix flags.xds_config_source "grpc://" ≡ true)
    × ((value_of made made_ok).created.provisioner.amesh ≡ none)
    × (try_connect 0 (value_of made made_ok).created.provisioner.amesh connects new_connection
        ≡ panic)
run_command-panics_example =
    run_command-panics no_env quiet_logger interfaces "run" (pos 1) (ok tt) flags []
      (value_of made made_ok) 0 new_connection runs
