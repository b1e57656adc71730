-- ===== src/Cmd/Daemon/Laws.antt =====
-- What cmd/npu-config-daemon/main.go sets up before it starts the manager.
use accelerator_config_manag.Prelude.{some, ◌≡◌, refl, ℕ, List, [], ◌∷◌}
use accelerator_config_manag.Prelude.Run.{ok}
use accelerator_config_manag.Api.Meta.{Error, done}
use accelerator_config_manag.Cmd.Runtime.{Kinds, Runtime}
use accelerator_config_manag.Cmd.Setup.{setup_daemon}
use accelerator_config_manag.Cmd.Exit.{steps, steps-Ended, Ended}
use accelerator_config_manag.Cmd.Daemon.{Flags, options, main}

module _ {K : Kinds} {S : Type 0} (runtime : Runtime K S) where
  -- What `main` does with its manager and its context.
  abbrev pub set_up_steps : K.Manager → K.Context → List (S → Error × S)
  set_up_steps mgr ctx =
      setup_daemon runtime (runtime.getenv "NODE") mgr
      ∷ runtime.add_healthz_check mgr "healthz"
      ∷ runtime.add_readyz_check mgr "readyz"
      ∷ runtime.start mgr ctx
      ∷ []

  main-steps :
      (flags : Flags) (config : K.Config) (mgr : K.Manager) (ctx : K.Context) (s s1 s2 s3 : S)
      → runtime.get_config s ≡ (some config, s1)
      → runtime.new_manager config (options flags) s1 ≡ (done mgr, s2)
      → runtime.setup_signal_handler s2 ≡ (ctx, s3)
      → main runtime flags s ≡ steps (set_up_steps mgr ctx) s3
  unfolding main steps
  main-steps flags config mgr ctx s s1 s2 s3 g n h = rw (g, n, h) refl

  -- The daemon's process has a configuration, a manager can be made with the options of the command
  -- line, and the handler of signals is set up. Then `main` ends, without a panic: either with 0
  -- after the controller with its watches and both checks have been set up, in this order, and then
  -- the manager was started and has stopped without an error; or with 1 after the first of these
  -- steps that failed, and none after it was taken.
  pub daemon_main_lem :
      (flags : Flags) (config : K.Config) (mgr : K.Manager) (ctx : K.Context) (s s1 s2 s3 : S)
      → runtime.get_config s ≡ (some config, s1)
      → runtime.new_manager config (options flags) s1 ≡ (done mgr, s2)
      → runtime.setup_signal_handler s2 ≡ (ctx, s3)
      → (code : ℕ) × (t : S) × (main runtime flags s ≡ (ok code, t))
        × Ended (set_up_steps mgr ctx) s3 code t
  daemon_main_lem flags config mgr ctx s s1 s2 s3 g n h =
      let (code, t, e, ended) = steps-Ended (set_up_steps mgr ctx) s3 in
      (code, t, rw (main-steps flags config mgr ctx s s1 s2 s3 g n h) e, ended)
