-- ===== src/Cmd/Daemon.antt =====
-- cmd/npu-config-daemon/main.go. Log lines are not modelled, nor the set-up of the log and its options.
pub mod Laws
use accelerator_config_manag.Prelude.{String, Bool, false, none, some, ℕ, Option, List, [], ◌∷◌}
use accelerator_config_manag.Prelude.Eff.{Eff, pure, lift, call, ◌>>=◌}
use accelerator_config_manag.Api.Meta.{Error, Fallible, done, failed}
use accelerator_config_manag.Cmd.Runtime.{Kinds, Runtime, Options}
use accelerator_config_manag.Cmd.Setup.{setup_daemon}
use accelerator_config_manag.Cmd.Exit.{must, step}

-- The options of the command line that the program reads.
pub record Flags : Type 0 where
  pub metrics_addr : String
  pub probe_addr : String

-- Their defaults.
abbrev pub default_flags : Flags
default_flags = record { metrics_addr = ":8080"; probe_addr = ":8081" }

-- The options of the manager.
unfoldable pub options : Flags → Options
options flags = record {
  metrics_bind_address = flags.metrics_addr;
  port = 9443;
  health_probe_bind_address = flags.probe_addr;
  leader_election = false;
  leader_election_id = "";
  renew_deadline = none;
  lease_duration = none;
}

module _ {K : Kinds} {S : Type 0} (runtime : Runtime K S) where
  -- `init`, before `main`.
  unfoldable pub init : Eff S Unit
  init = do
    err ← call runtime.add_client_go
    added ← lift (must err)
    err' ← call runtime.add_es
    lift (must err')

  abbrev pub with_context : K.Manager → K.Context → Eff S ℕ
  with_context mgr ctx = step (setup_daemon runtime (runtime.getenv "NODE") mgr) (
      step (runtime.add_healthz_check mgr "healthz")
        (step (runtime.add_readyz_check mgr "readyz") (step (runtime.start mgr ctx) (pure 0))))

  abbrev pub with_manager : Fallible K.Manager → Eff S ℕ
  with_manager (failed e) = pure 1
  with_manager (done mgr) = do ctx ← call runtime.setup_signal_handler; with_context mgr ctx

  abbrev pub with_config : Flags → Option K.Config → Eff S ℕ
  with_config flags none = pure 1
  with_config flags (some config) = do
    answer ← call (runtime.new_manager config (options flags))
    with_manager answer

  -- `main` after `flag.Parse`: the exit code of the process.
  unfoldable pub main : Flags → Eff S ℕ
  main flags = do config ← call runtime.get_config; with_config flags config
