-- ===== src/Cmd/Manager.antt =====
-- cmd/config-manager/main.go. Log lines are not modelled, nor the set-up of the log and its options.
pub mod Laws
use Prim.Native.Nat.{◌%◌, ◌*◌, ◌^◌}
use accelerator_config_manag.Prelude.{
  String, Bool, true, false, not, ◌&&◌, none, some, if◌then◌else◌, ℕ, zero, suc, ◌+◌, Option, List,
  [], ◌∷◌,
}
use accelerator_config_manag.Prelude.Eff.{Eff, pure, lift, call, ◌>>=◌}
use accelerator_config_manag.Api.Meta.{Error, Fallible, done, failed}
use accelerator_config_manag.Cmd.Runtime.{Kinds, Runtime, Options, Duration}
use accelerator_config_manag.Cmd.Setup.{setup_gpu, setup_npu}
use accelerator_config_manag.Cmd.Exit.{must, step}

-- The options of the command line that the program reads.
pub record Flags : Type 0 where
  pub metrics_addr : String
  pub probe_addr : String
  pub enable_leader_election : Bool
  pub renew_deadline : Duration

-- Their defaults.
abbrev pub default_flags : Flags
default_flags = record {
  metrics_addr = ":8080";
  probe_addr = ":8081";
  enable_leader_election = false;
  renew_deadline = 0;
}

-- `5*time.Second`
abbrev pub five_seconds : Duration
five_seconds = 5 * 1000000000

-- `int(renewDeadline) != 0`, where an int has 64 bits.
abbrev pub is_set : Duration → Bool
is_set zero = false
is_set (suc n) = true

abbrev pub basic_options : Flags → Options
basic_options flags = record {
  metrics_bind_address = flags.metrics_addr;
  port = 9443;
  health_probe_bind_address = flags.probe_addr;
  leader_election = flags.enable_leader_election;
  leader_election_id = "90721dc7.easystack.io";
  renew_deadline = none;
  lease_duration = none;
}

-- The options of the manager: the lease is longer than its renewal by five seconds.
unfoldable pub options : Flags → Options
options flags =
    if flags.enable_leader_election && is_set flags.renew_deadline
    then record (basic_options flags) {
      renew_deadline = some flags.renew_deadline;
      lease_duration = some ((flags.renew_deadline + five_seconds) % 2 ^ 64);
    }
    else basic_options flags

module _ {K : Kinds} {S : Type 0} (runtime : Runtime K S) where
  -- `init`, before `main`.
  unfoldable pub init : Eff S Unit
  init = do
    err ← call runtime.add_client_go
    added ← lift (must err)
    err' ← call runtime.add_es
    lift (must err')

  -- `mgr.Start(ctrl.SetupSignalHandler())`
  abbrev pub start_manager : K.Manager → S → Error × S
  start_manager mgr s = let (ctx, s1) = runtime.setup_signal_handler s in runtime.start mgr ctx s1

  abbrev pub with_manager : Fallible K.Manager → Eff S ℕ
  with_manager (failed e) = pure 1
  with_manager (done mgr) = step (setup_gpu runtime (runtime.getenv "NAMESPACE") mgr) (
      step (setup_npu runtime mgr) (
        step (runtime.add_healthz_check mgr "healthz")
          (step (runtime.add_readyz_check mgr "readyz") (step (start_manager mgr) (pure 0)))))

  abbrev pub with_config : Flags → Option K.Config → Eff S ℕ
  with_config flags none = pure 1
  with_config flags (some config) = do
    answer ← call (runtime.new_manager config (options flags))
    with_manager answer

  -- `main` after `flag.Parse`: the exit code of the process.
  unfoldable pub main : Flags → Eff S ℕ
  main flags = do config ← call runtime.get_config; with_config flags config
