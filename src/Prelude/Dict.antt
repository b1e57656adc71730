-- ===== src/Prelude/Dict.antt =====
-- The entries of a Go map with text keys, in the order in which a `range` loop visits them.
use mathlib.Core.Path.{◌≡◌, refl}
use mathlib.Core.Bool.{Bool}
use mathlib.Core.Option.{Option, none, some}
use mathlib.Core.List.{List, [], ◌∷◌}
use Prim.Native.String.{String}
use native.Mathlib.Omega.{arith}
use text.Mathlib.Text.{◌==◌}
use text.Mathlib.TextEquality.{eq_iff}
use text.Mathlib.TextPositions.{eq_refl}
use accelerator_config_manag.Prelude.Tests.{if◌then◌else◌, is_some}

abbrev pub Dict {ℓ} : Type ℓ → Type ℓ
Dict V = List (String × V)

module _ {ℓ} {V : Type ℓ} where
  unfoldable pub lookup : String → Dict V → Option V
  lookup k [] = none
  lookup k ((j, v) ∷ d) = if j == k then some v else lookup k d

  unfoldable pub insert : String → V → Dict V → Dict V
  insert k v [] = (k, v) ∷ []
  insert k v ((j, w) ∷ d) = if j == k then (j, v) ∷ d else (j, w) ∷ insert k v d

  unfoldable pub erase : String → Dict V → Dict V
  erase k [] = []
  erase k ((j, w) ∷ d) = let rest = erase k d in if j == k then rest else (j, w) ∷ rest

  -- A key that is there.
  abbrev pub has : String → Dict V → Bool
  has k d = is_some (lookup k d)

  -- No key stands twice, as in every Go map.
  abbrev pub UniqueKeys : Dict V → Type ℓ
  UniqueKeys [] = Unit
  UniqueKeys ((k, v) ∷ d) = (lookup k d ≡ none) × UniqueKeys d

module _ {ℓ} {V : Type ℓ} where
  -- Two lists of entries that stand for one map.
  abbrev pub SameMap : Dict V → Dict V → Type ℓ
  SameMap d e = (k : String) → lookup k d ≡ lookup k e

  pub lookup-nil : (k : String) → lookup {V = V} k [] ≡ none
  unfolding lookup
  lookup-nil k = refl

  pub lookup-cons :
      (k j : String) (v : V) (d : Dict V)
      → lookup k ((j, v) ∷ d) ≡ (if j == k then some v else lookup k d)
  unfolding lookup
  lookup-cons k j v d = refl

  pub lookup-insert :
      (j k : String) (v : V) (d : Dict V)
      → lookup j (insert k v d) ≡ (if k == j then some v else lookup j d)
  unfolding lookup insert
  lookup-insert j k v [] = refl
  lookup-insert j k v ((i, w) ∷ d) =
      ground (arith, eq_iff k j, eq_iff i k, eq_iff i j, lookup-insert j k v d)

  pub lookup-erase :
      (j k : String) (d : Dict V) → lookup j (erase k d) ≡ (if k == j then none else lookup j d)
  unfolding lookup erase
  lookup-erase j k [] = ground arith
  lookup-erase j k ((i, w) ∷ d) =
      ground (arith, eq_iff k j, eq_iff i k, eq_iff i j, lookup-erase j k d)

  pub erase-UniqueKeys : (k : String) (d : Dict V) → UniqueKeys d → UniqueKeys (erase k d)
  unfolding erase
  erase-UniqueKeys k [] u = tt
  erase-UniqueKeys k ((j, w) ∷ d) (fresh, u) =
      ground (arith, erase-UniqueKeys k d u, lookup-erase j k d)

  pub insert-UniqueKeys :
      (k : String) (v : V) (d : Dict V) → UniqueKeys d → UniqueKeys (insert k v d)
  unfolding insert
  insert-UniqueKeys k v [] u = (lookup-nil k, tt)
  insert-UniqueKeys k v ((j, w) ∷ d) (fresh, u) =
      ground (arith, insert-UniqueKeys k v d u, lookup-insert j k v d, eq_iff k j, eq_iff j k)

  pub lookup-erase_self : (k : String) (d : Dict V) → lookup k (erase k d) ≡ none
  lookup-erase_self k d = simp (lookup-erase, eq_refl)

pub ruleset dict_laws = (lookup-nil, lookup-cons, lookup-insert, lookup-erase)
