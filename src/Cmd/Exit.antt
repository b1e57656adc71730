-- ===== src/Cmd/Exit.antt =====
-- `if err != nil { …; os.Exit(1) }`, and what a list of such steps comes to.
use accelerator_config_manag.Prelude.{none, some, List, [], ◌∷◌, ◌≡◌, refl, ℕ, ◌⊎◌, inl, inr}
use accelerator_config_manag.Prelude.Run.{Run, ok, panic}
use accelerator_config_manag.Prelude.Eff.{Eff, pure, call, ◌>>=◌}
use accelerator_config_manag.Api.Meta.{Error, GoError}

-- `utilruntime.Must`
abbrev pub must : Error → Run {0} (Unit {0})
must none = ok tt
must (some e) = panic

pub Error-cases : (e : Error) → (e ≡ none) ⊎ ((x : GoError) × (e ≡ some x))
Error-cases none = inl refl
Error-cases (some x) = inr (x, refl)

module _ {S : Type 0} where
  -- The exit code of the process: 1 after `os.Exit(1)`.
  abbrev pub unless_exit : Error → Eff S ℕ → Eff S ℕ
  unless_exit none rest = rest
  unless_exit (some e) rest = pure 1

  abbrev pub step : (S → Error × S) → Eff S ℕ → Eff S ℕ
  step f rest = do err ← call f; unless_exit err rest

  -- All steps have succeeded, in their order, from the first state to the second.
  pub data AllRan : List (S → Error × S) → S → S → Type 0 where
    finished : {s : S} → AllRan [] s s
    succeeded :
        {f : S → Error × S} {fs : List (S → Error × S)} {s s1 t : S}
        → f s ≡ (none, s1)
        → AllRan fs s1 t
        → AllRan (f ∷ fs) s t

  -- A step has failed in the second state, and those before it have succeeded.
  pub data StoppedAt : List (S → Error × S) → S → S → Type 0 where
    here :
        {f : S → Error × S} {fs : List (S → Error × S)} {s t : S} (e : GoError)
        → f s ≡ (some e, t)
        → StoppedAt (f ∷ fs) s t
    later :
        {f : S → Error × S} {fs : List (S → Error × S)} {s s1 t : S}
        → f s ≡ (none, s1)
        → StoppedAt fs s1 t
        → StoppedAt (f ∷ fs) s t

  -- The process has returned from `main`, or exited with 1.
  abbrev pub Ended : List (S → Error × S) → S → ℕ → S → Type 0
  Ended fs s code t = ((code ≡ 0) × AllRan fs s t) ⊎ ((code ≡ 1) × StoppedAt fs s t)

  unfoldable pub steps : List (S → Error × S) → Eff S ℕ
  steps [] = pure 0
  steps (f ∷ fs) = step f (steps fs)

  -- The steps end, without a panic, in one of the two ways.
  pub steps-Ended :
      (fs : List (S → Error × S)) (s : S)
      → (code : ℕ) × (t : S) × (steps fs s ≡ (ok code, t)) × Ended fs s code t
  unfolding steps
  steps-Ended [] s = (0, s, refl, inl (refl, finished))
  steps-Ended (f ∷ fs) s = elim (Error-cases (f s).0) [
    | inl h ↦
        let (code, t, e, ended) = steps-Ended fs (f s).1 in
        let now : f s ≡ (none, (f s).1) = λ i. (h i, (f s).1) in
        (
          code,
          t,
          rw h e,
          elim ended [
            | inl (zero, ran) ↦ inl (zero, succeeded now ran)
            | inr (one, stopped) ↦ inr (one, later now stopped)
          ],
        )
    | inr (x, h) ↦
        let now : f s ≡ (some x, (f s).1) = λ i. (h i, (f s).1) in
        (1, (f s).1, rw h refl, inr (refl, here x now))
  ]
