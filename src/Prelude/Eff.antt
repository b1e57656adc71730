-- ===== src/Prelude/Eff.antt =====
-- Code that acts on the state of the cluster through a client and may panic. What was done to the
-- state before a panic stays done.
use mathlib.Core.Path.{◌≡◌, refl, ap}
use mathlib.Core.Bool.{Bool, true, false}
use accelerator_config_manag.Prelude.Tests.{if◌then◌else◌}
use accelerator_config_manag.Prelude.Run.{Run, ok, panic, panic≢ok}

abbrev pub Eff {ℓ} : Type ℓ → Type ℓ → Type ℓ
Eff S A = S → Run A × S

module _ {ℓ} {S A : Type ℓ} where
  abbrev pub pure : A → Eff S A
  pure a s = (ok a, s)

  -- Code that does not touch the cluster.
  abbrev pub lift : Run A → Eff S A
  lift r s = (r, s)

  -- A call of the client, which never panics.
  abbrev pub call : (S → A × S) → Eff S A
  call f s = let (a, s') = f s in (ok a, s')

module _ {ℓ} {S A B : Type ℓ} where
  abbrev pub continue : Run A → (A → Eff S B) → S → Run B × S
  continue (ok a) f s = f a s
  continue panic f s = (panic, s)

  infixl 5 ◌>>=◌
  abbrev pub ◌>>=◌ : Eff S A → (A → Eff S B) → Eff S B
  ◌>>=◌ m f s = let (r, s') = m s in continue r f s'

module _ {ℓ} {S A B : Type ℓ} where
  continue-eq-ok :
      (r : Run A) (f : A → Eff S B) (s s' : S) (b : B)
      → continue r f s ≡ (ok b, s')
      → (a : A) × (r ≡ ok a) × (f a s ≡ (ok b, s'))
  continue-eq-ok (ok a) f s s' b e = (a, refl, e)
  continue-eq-ok panic f s s' b e = absurd (panic≢ok (ap (λ x. x.0) e))

  -- A run that ends without a panic has gone through a state between its two parts.
  pub >>=-eq-ok :
      (m : Eff S A) (f : A → Eff S B) (s s' : S) (b : B)
      → (m >>= f) s ≡ (ok b, s')
      → (a : A) × (t : S) × (m s ≡ (ok a, t)) × (f a t ≡ (ok b, s'))
  >>=-eq-ok m f s s' b e =
      let (a, p, q) = continue-eq-ok (m s).0 f (m s).1 s' b e in
      (a, (m s).1, (λ i. (p i, (m s).1)), q)

-- What holds of the result and of the state that a run leaves: it has not panicked.
abbrev pub Ends {ℓ} : {S A : Type ℓ} → (A → S → Type 0) → Run A × S → Type 0
Ends P (ok a, s) = P a s
Ends P (panic, s) = ⊥

module _ {ℓ} {S A : Type ℓ} where
  -- A run that has not panicked, as an equation.
  pub Ends-eq-ok :
      (P : A → S → Type 0) (r : Run A × S) → Ends P r → (a : A) × (s : S) × (r ≡ (ok a, s)) × P a s
  Ends-eq-ok P (ok a, s) h = (a, s, refl, h)
  Ends-eq-ok P (panic, s) h = absurd h

  pub Ends-of_eq_ok :
      (P : A → S → Type 0) (r : Run A × S) (a : A) (s : S) → r ≡ (ok a, s) → P a s → Ends P r
  Ends-of_eq_ok P r a s e h = rw e h

module _ {ℓ} {S A B : Type ℓ} where
  continue-Ends :
      (P : A → S → Type 0) (Q : B → S → Type 0) (r : Run A × S) (f : A → Eff S B)
      → Ends P r
      → ((a : A) (t : S) → P a t → Ends Q (f a t))
      → Ends Q (continue r.0 f r.1)
  continue-Ends P Q (ok a, s) f h k = k a s h
  continue-Ends P Q (panic, s) f h k = absurd h

  -- The rule for two parts of a run.
  pub >>=-Ends :
      (P : A → S → Type 0) (Q : B → S → Type 0) (m : Eff S A) (f : A → Eff S B) (s : S)
      → Ends P (m s)
      → ((a : A) (t : S) → P a t → Ends Q (f a t))
      → Ends Q ((m >>= f) s)
  >>=-Ends P Q m f s h k = continue-Ends P Q (m s) f h k

-- Nothing is said of a result, but that there is one.
abbrev pub Anything {ℓ} : {S A : Type ℓ} → A → S → Type 0
Anything a s = Unit

module _ {ℓ} {S A : Type ℓ} where
  -- The rule for the two branches of a test.
  pub if-Ends :
      (P : A → S → Type 0) (b : Bool) (x y : Eff S A) (s : S)
      → (b ≡ true → Ends P (x s))
      → (b ≡ false → Ends P (y s))
      → Ends P ((if b then x else y) s)
  if-Ends P true x y s h k = h refl
  if-Ends P false x y s h k = k refl

-- A run leaves a state of which `I` holds where it finds one, also where it panics.
abbrev pub Keeps {ℓ} : {S A : Type ℓ} → (S → Type 0) → Eff S A → Type ℓ
Keeps {S} I e = (s : S) → I s → I (e s).1

module _ {ℓ} {S A B : Type ℓ} (I : S → Type 0) where
  continue-keeps :
      (r : Run A) (f : A → Eff S B) (s : S) → I s → ((a : A) → I (f a s).1) → I (continue r f s).1
  continue-keeps (ok a) f s h k = k a
  continue-keeps panic f s h k = h

  pub >>=-Keeps :
      (m : Eff S A) (f : A → Eff S B) → Keeps I m → ((a : A) → Keeps I (f a)) → Keeps I (m >>= f)
  >>=-Keeps m f h k s i = continue-keeps (m s).0 f (m s).1 (h s i) (λ a. k a (m s).1 (h s i))

module _ {ℓ} {S A : Type ℓ} (I : S → Type 0) where
  pub if-Keeps : (b : Bool) (x y : Eff S A) → Keeps I x → Keeps I y → Keeps I (if b then x else y)
  if-Keeps true x y h k = h
  if-Keeps false x y h k = k

  -- What a run that does not panic leaves, with what it keeps.
  pub Ends-kept :
      (P : A → S → Type 0) (r : Run A × S) → Ends P r → I r.1 → Ends (λ a s. P a s × I s) r
  Ends-kept P (ok a, s) h i = (h, i)
  Ends-kept P (panic, s) h i = absurd h
