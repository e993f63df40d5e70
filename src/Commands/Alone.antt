-- ===== src/Commands/Alone.antt =====
-- An agent without a controller, as cmd/standalone/main.go and StartTestAmesh of cmd/dynamic/main.go
-- start it: Run of pkg/amesh/provisioner/xds.go on what NewAgent made.
use amesh.Prelude.{
  List, ℕ, ℤ, String, true, ◌≡◌, refl, none, Result, ok, err, panic, ok_injective, bind-ok,
  Bool-cases, inl, inr, arith,
}
use amesh.Prelude.Text.{has_prefix}
use amesh.Agent.Server.{Interface, get_ip_addr}
use amesh.Agent.Create.{AgentOptions, CreatedAgent, provisioner_config, new_agent}
use amesh.Xds.Create.{Created, amesh_of, new_xds_provisioner}
use amesh.Xds.Create
use amesh.Xds.Connection.{Connection, connects, try_connect}
use amesh.Commands.{Config, running, dief, started, run_command}

started-running : {A : Type 0} (r : Result A) (a : A) → started r ≡ running a → r ≡ ok a
unfolding started dief
started-running (ok b) a e = cc
started-running (err message) a e = absurd (cc e)
started-running panic a e = absurd (cc e)

module _ (env : String → String) (logger : String → Result (Unit {0})) where
  amesh_of-alone :
      (cfg : amesh.Xds.Create.Config)
      → cfg.amesh_config_source ≡ ""
      → amesh_of env logger cfg ≡ ok none
  unfolding amesh_of
  amesh_of-alone cfg alone = rw (alone, amesh_of) refl

  -- A provisioner without an Amesh source, if it can be made.
  new_xds_provisioner-alone :
      (cfg : amesh.Xds.Create.Config) (created : Created)
      → cfg.amesh_config_source ≡ ""
      → new_xds_provisioner env logger cfg ≡ ok created
      → (created.provisioner.amesh ≡ none) × (has_prefix cfg.xds_config_source "grpc://" ≡ true)
  unfolding new_xds_provisioner amesh_of
  new_xds_provisioner-alone cfg created alone e =
      let (_, _, e1) = bind-ok (logger "xds-grpc-provisioner") _ e in
      elim (Bool-cases (has_prefix cfg.xds_config_source "grpc://")) [
        | inl h ↦ ground (arith, amesh_of-alone cfg alone)
        | inr h ↦ absurd (ground arith)
      ]

module _ {S : Type 0} (env : String → String) (logger : String → Result (Unit {0}))
    (interfaces : Result (List Interface)) (run_id : String) (now : ℤ) where
  new_agent-alone :
      (options : AgentOptions) (data_zone version_zone : S) (agent : CreatedAgent S)
      → options.amesh_grpc ≡ ""
      → new_agent env logger interfaces run_id now data_zone version_zone options ≡ ok agent
      → (agent.created.provisioner.amesh ≡ none) × (has_prefix options.src "grpc://" ≡ true)
  unfolding new_agent provisioner_config
  new_agent-alone options data_zone version_zone agent alone e =
      let (ip_addr, _, e1) = bind-ok (get_ip_addr interfaces) _ e in
      let cfg = provisioner_config env run_id ip_addr options in
      let (created, made, e2) = bind-ok (new_xds_provisioner env logger cfg) _ e1 in
      let (_, _, e3) = bind-ok (logger "sidecar") _ e2 in
      rw (← ok_injective e3) (new_xds_provisioner-alone env logger cfg created alone made)

  -- If the standalone command starts an agent at all, then its source has the scheme grpc and the
  -- agent has no Amesh provisioner, so the first connection to the control plane that succeeds
  -- panics.
  pub run_command-panics :
      (logging : Result (Unit {0})) (cfg : Config) (nil : S) (agent : CreatedAgent S)
      (sync_interval : ℕ) (c : Connection)
      → run_command env logger interfaces run_id now logging cfg nil ≡ running agent
      → (has_prefix cfg.xds_config_source "grpc://" ≡ true)
        × (agent.created.provisioner.amesh ≡ none)
        × (try_connect sync_interval agent.created.provisioner.amesh connects c ≡ panic)
  unfolding run_command try_connect dief
  run_command-panics panic cfg nil agent sync_interval c e = absurd (cc e)
  run_command-panics (err message) cfg nil agent sync_interval c e = absurd (cc e)
  run_command-panics (ok _) cfg nil agent sync_interval c e =
      let (alone, scheme) = new_agent-alone _ nil nil agent refl (started-running _ agent e) in
      (scheme, alone, rw (alone, try_connect) refl)
