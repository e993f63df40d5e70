-- ===== src/Commands.antt =====
-- The commands that start an agent: cmd/dynamic/main.go, which nginx loads, and cmd/standalone/main.go,
-- with Dief of pkg/utils/die.go. The environment, strconv.Atoi, the logger, the interfaces of the
-- host, the id of the run and the clock are parameters.
pub mod Alone
use Prim.Native.String.{◌++◌ as ◌+++◌}
use amesh.Prelude.{
  ℤ, pos, String, List, [], ◌∷◌, Option, none, some, Result, ok, err, panic, ◌==◌, if◌then◌else◌,
}
use amesh.Agent.Server.{Interface}
use amesh.Agent.Create.{AgentOptions, CreatedAgent, new_agent}

-- How starting ends: the agent runs, or Dief has written its message and the process exits.
pub data Started {ℓ} (A : Type ℓ) : Type ℓ where
  running : A → Started A
  died : String → Started A
  panicked : Started A

unfoldable pub dief {ℓ} : {A : Type ℓ} → String → String → Started A
dief format message = died (format +++ message)

-- os.Getenv with a default for the empty text
unfoldable pub env_or : (String → String) → String → String → String
env_or env name default = let value = env name in if value == "" then default else value

-- agent, err := amesh.NewAgent(...); if err != nil { utils.Dief(...) }
unfoldable pub started {ℓ} : {A : Type ℓ} → Result A → Started A
unfolding dief
started (ok agent) = running agent
started (err message) = dief "failed to create generator: " message
started panic = panicked

-- Config of the standalone command with its defaults, which the flags replace
pub record Config : Type 0 where
  pub log_level : String
  pub log_output : String
  pub xds_config_source : String

unfoldable pub new_default_config : Config
new_default_config = record { log_level = "info"; log_output = "stderr"; xds_config_source = "" }

-- the arguments of NewAgent in initial
unfoldable pub initial_options : (String → String) → ℤ → AgentOptions
unfolding env_or
initial_options env interval = record {
  src = env_or env "ISTIO_XDS_SOURCE" "grpc://istiod.istio-system.svc.cluster.local:15010";
  amesh_grpc =
      env_or env "AMESH_GRPC_SOURCE" "grpc://amesh-controller.istio-system.svc.cluster.local:15810";
  sync_interval = interval;
  log_level = "debug";
  log_output = "stderr";
}

module _ {S : Type 0} (env : String → String) (logger : String → Result (Unit {0}))
    (interfaces : Result (List Interface)) (run_id : String) (now : ℤ) where
  unfoldable pub initial : (String → Result ℤ) → S → S → Started (CreatedAgent S)
  unfolding env_or started initial_options dief
  initial atoi data_zone version_zone = elim (atoi (env_or env "AMESH_SYNC_INTERVAL" "10")) [
    | ok interval ↦ started (
        new_agent env logger interfaces run_id now data_zone version_zone
          (initial_options env interval))
    | err message ↦ dief "parse interval failed: " message
    | panic ↦ panicked
  ]

  -- StartTestAmesh, whose two zones are nil
  unfoldable pub start_test_amesh : String → S → Started (CreatedAgent S)
  unfolding started
  start_test_amesh src nil = started (
      new_agent env logger interfaces run_id now nil nil (record {
        src = src;
        amesh_grpc = "";
        sync_interval = pos 0;
        log_level = "debug";
        log_output = "stderr";
      }))

  -- the function that the command run executes; `made` is what log.NewLogger returns first
  unfoldable pub run_command : Result (Unit {0}) → Config → S → Started (CreatedAgent S)
  unfolding started dief
  run_command panic cfg nil = panicked
  run_command (err message) cfg nil = dief "failed to set logger: " message
  run_command (ok _) cfg nil = started (
      new_agent env logger interfaces run_id now nil nil (record {
        src = cfg.xds_config_source;
        amesh_grpc = "";
        sync_interval = pos 0;
        log_level = cfg.log_level;
        log_output = cfg.log_output;
      }))
