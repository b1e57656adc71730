-- ===== src/Prelude/Run.antt =====
-- Code that may panic, and code that also acts on a state, here that of the cluster.
-- What was done to the state before a panic stays done.
use mathlib.Core.Path.{◌≡◌}

pub data Run {ℓ} (A : Type ℓ) : Type ℓ where
  ok : A → Run A
  panic : Run A

infixl 5 ◌>>=◌
abbrev pub ◌>>=◌ {ℓ κ} : {A : Type ℓ} {B : Type κ} → Run A → (A → Run B) → Run B
ok a >>= f = f a
panic >>= f = panic

pub panic≢ok {ℓ} : {A : Type ℓ} {a : A} → Run.panic ≡ ok a → ⊥
panic≢ok e = cc

pub ok-injective {ℓ} : {A : Type ℓ} {a b : A} → ok a ≡ ok b → a ≡ b
ok-injective e = cc
