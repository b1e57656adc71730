-- ===== src/Cmd/Manager/Laws.antt =====
-- What cmd/config-manager/main.go sets up before it starts the manager, and its leader election.
use Prim.Native.Nat.{◌%◌, ◌^◌, ◌≤◌, ◌<◌}
use accelerator_config_manag.Prelude.{
  true, false, none, some, ◌≡◌, refl, ℕ, zero, suc, ◌+◌, List, [], ◌∷◌, arith,
}
use accelerator_config_manag.Prelude.Run.{ok}
use accelerator_config_manag.Api.Meta.{Error, done}
use accelerator_config_manag.Cmd.Runtime.{Kinds, Runtime, Duration}
use accelerator_config_manag.Cmd.Setup.{setup_gpu, setup_npu}
use accelerator_config_manag.Cmd.Exit.{steps, steps-Ended, Ended}
use accelerator_config_manag.Cmd.Manager.{Flags, five_seconds, is_set, options, start_manager, main}

module _ {K : Kinds} {S : Type 0} (runtime : Runtime K S) where
  -- What `main` does with its manager.
  abbrev pub set_up_steps : K.Manager → List (S → Error × S)
  set_up_steps mgr =
      setup_gpu runtime (runtime.getenv "NAMESPACE") mgr
      ∷ setup_npu runtime mgr
      ∷ runtime.add_healthz_check mgr "healthz"
      ∷ runtime.add_readyz_check mgr "readyz"
      ∷ start_manager runtime mgr
      ∷ []

  main-steps :
      (flags : Flags) (config : K.Config) (mgr : K.Manager) (s s1 s2 : S)
      → runtime.get_config s ≡ (some config, s1)
      → runtime.new_manager config (options flags) s1 ≡ (done mgr, s2)
      → main runtime flags s ≡ steps (set_up_steps mgr) s2
  unfolding main steps
  main-steps flags config mgr s s1 s2 g n = rw (g, n) refl

  -- The process has a configuration, and a manager can be made with the options of the command line.
  -- Then `main` ends, without a panic: either with 0 after both controllers and both checks have
  -- been set up, in this order, and then the manager was started and has stopped without an error;
  -- or with 1 after the first of these steps that failed, and none after it was taken.
  pub main_lem :
      (flags : Flags) (config : K.Config) (mgr : K.Manager) (s s1 s2 : S)
      → runtime.get_config s ≡ (some config, s1)
      → runtime.new_manager config (options flags) s1 ≡ (done mgr, s2)
      → (code : ℕ) × (t : S) × (main runtime flags s ≡ (ok code, t))
        × Ended (set_up_steps mgr) s2 code t
  main_lem flags config mgr s s1 s2 g n =
      let (code, t, e, ended) = steps-Ended (set_up_steps mgr) s2 in
      (code, t, rw (main-steps flags config mgr s s1 s2 g n) e, ended)

is_set-pos : (d : Duration) → 0 < d → is_set d ≡ true
is_set-pos zero h = absurd (omega arith)
is_set-pos (suc n) h = refl

-- The renewal deadline is a positive int64. With leader election the manager is given that deadline
-- and a lease: it is five seconds longer while that is an int64, and else it has overflowed to a
-- negative duration. Without leader election neither is set.
pub options_lem :
    (flags : Flags)
    → 0 < flags.renew_deadline
    → flags.renew_deadline < 2 ^ 63
    → (flags.enable_leader_election ≡ false
        → ((options flags).renew_deadline ≡ none) × ((options flags).lease_duration ≡ none))
      × (flags.enable_leader_election ≡ true
          → ((options flags).renew_deadline ≡ some flags.renew_deadline)
            × (lease : Duration) × ((options flags).lease_duration ≡ some lease)
            × (flags.renew_deadline + five_seconds < 2 ^ 63
                → lease ≡ flags.renew_deadline + five_seconds)
            × (2 ^ 63 ≤ flags.renew_deadline + five_seconds → (2 ^ 63 ≤ lease) × (lease < 2 ^ 64)))
unfolding options
options_lem flags pos small = (
  (λ off. (rw off refl, rw off refl)),
  (λ on.
      let set = is_set-pos flags.renew_deadline pos in
      (
        rw (on, set) refl,
        (flags.renew_deadline + five_seconds) % 2 ^ 64,
        rw (on, set) refl,
        (λ fits. omega arith),
        (λ long. (omega arith, omega arith)),
      )),
)
