-- ===== src/Tests/Programs.antt =====
-- The two programs on a runtime that counts its calls, one of which may fail.
use Prim.Native.Nat.{◌^◌, ◌≤◌, ◌<◌}
use accelerator_config_manag.Prelude.{
  String, true, false, none, some, ◌≡◌, refl, ℕ, suc, ◌+◌, arith,
}
use accelerator_config_manag.Prelude.Run.{ok}
use accelerator_config_manag.Api.Meta.{Error, done}
use accelerator_config_manag.Cmd.Runtime.{Kinds, Runtime, Duration}
use accelerator_config_manag.Cmd.Setup.{setup_daemon}
use accelerator_config_manag.Cmd.Setup
use accelerator_config_manag.Cmd.Exit.{Ended}
use accelerator_config_manag.Cmd.Manager as Manager
use accelerator_config_manag.Cmd.Manager.Laws as ManagerLaws
use accelerator_config_manag.Cmd.Daemon as Daemon
use accelerator_config_manag.Cmd.Daemon.Laws as DaemonLaws
use accelerator_config_manag.Cmd.Manager.Laws.{main_lem, options_lem}
use accelerator_config_manag.Cmd.Daemon.Laws.{daemon_main_lem}

abbrev kinds : Kinds
kinds = record { Config = String; Manager = String; Controller = String; Context = String }

abbrev failure : Error
failure = some (record { is_not_found = false; message = "no" })

-- A call is counted. The check on readiness fails.
abbrev counting : Runtime kinds ℕ
counting = record {
  add_client_go = λ n. (none, suc n);
  add_es = λ n. (none, suc n);
  getenv = λ name. name;
  get_config = λ n. (some "config", suc n);
  new_manager = λ config options n. (done "manager", suc n);
  complete = λ mgr resource r n. (none, suc n);
  new_controller = λ name mgr r n. (done name, suc n);
  watch = λ c resource n. (none, suc n);
  add_healthz_check = λ mgr name n. (none, suc n);
  add_readyz_check = λ mgr name n. (failure, suc n);
  setup_signal_handler = λ n. ("context", suc n);
  start = λ mgr ctx n. (none, suc n);
}

main_lem_example :
    (code : ℕ) × (t : ℕ) × (Manager.main counting Manager.default_flags 0 ≡ (ok code, t))
    × Ended (ManagerLaws.set_up_steps counting "manager") 2 code t
main_lem_example = main_lem counting Manager.default_flags "config" "manager" 0 1 2 refl refl

-- The manager is not started.
not_started : Manager.main counting Manager.default_flags 0 ≡ (ok 1, 6)
unfolding Manager.main Setup.setup_gpu Setup.setup_npu
not_started = refl

daemon_main_lem_example :
    (code : ℕ) × (t : ℕ) × (Daemon.main counting Daemon.default_flags 0 ≡ (ok code, t))
    × Ended (DaemonLaws.set_up_steps counting "manager" "context") 3 code t
daemon_main_lem_example =
    daemon_main_lem counting Daemon.default_flags "config" "manager" "context" 0 1 2 3 refl refl
      refl

-- Ten seconds.
abbrev flags : Manager.Flags
flags = record {
  metrics_addr = ":8080";
  probe_addr = ":8081";
  enable_leader_election = true;
  renew_deadline = 10000000000;
}

options_lem_example :
    (flags.enable_leader_election ≡ false
      → ((Manager.options flags).renew_deadline ≡ none)
        × ((Manager.options flags).lease_duration ≡ none))
    × (flags.enable_leader_election ≡ true
        → ((Manager.options flags).renew_deadline ≡ some flags.renew_deadline)
          × (lease : Duration) × ((Manager.options flags).lease_duration ≡ some lease)
          × (flags.renew_deadline + Manager.five_seconds < 2 ^ 63
              → lease ≡ flags.renew_deadline + Manager.five_seconds)
          × (2 ^ 63 ≤ flags.renew_deadline + Manager.five_seconds
              → (2 ^ 63 ≤ lease) × (lease < 2 ^ 64)))
options_lem_example = options_lem flags (omega arith) (omega arith)
