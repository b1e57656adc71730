-- ===== src/Prelude/GoMap.antt =====
-- Go's `map[string]V`: nil, or made with its entries. Reading and deleting are safe on nil.
-- A write to nil panics.
use mathlib.Core.Path.{◌≡◌, refl}
use mathlib.Core.Logic.{◌⊎◌, inl, inr}
use mathlib.Core.Bool.{Bool, true, false}
use mathlib.Core.Option.{Option, none}
use mathlib.Core.List.{[]}
use Prim.Native.String.{String}
use accelerator_config_manag.Prelude.Dict.{Dict, lookup, insert, erase, lookup-nil}
use accelerator_config_manag.Prelude.Run.{Run, ok, panic}

pub data GoMap {ℓ} (V : Type ℓ) : Type ℓ where
  nil_map : GoMap V
  made : Dict V → GoMap V

module _ {ℓ} {V : Type ℓ} where
  -- What a `range` loop visits.
  abbrev pub entries : GoMap V → Dict V
  entries nil_map = []
  entries (made d) = d

  -- `v, ok := m[k]`
  abbrev pub get : String → GoMap V → Option V
  get k nil_map = none
  get k (made d) = lookup k d

  -- `m[k] = v`
  abbrev pub assign : String → V → GoMap V → Run (GoMap V)
  assign k v nil_map = panic
  assign k v (made d) = ok (made (insert k v d))

  -- `delete(m, k)`
  abbrev pub remove : String → GoMap V → GoMap V
  remove k nil_map = nil_map
  remove k (made d) = made (erase k d)

  pub lookup-entries : (k : String) (m : GoMap V) → lookup k (entries m) ≡ get k m
  lookup-entries k nil_map = lookup-nil k
  lookup-entries k (made d) = refl

  pub GoMap-cases : (m : GoMap V) → (m ≡ nil_map) ⊎ ((d : Dict V) × (m ≡ made d))
  GoMap-cases nil_map = inl refl
  GoMap-cases (made d) = inr (d, refl)

  -- A map that is not nil.
  abbrev pub is_made : GoMap V → Bool
  is_made nil_map = false
  is_made (made d) = true

  pub is_made-true : (g : GoMap V) → is_made g ≡ true → (d : Dict V) × (g ≡ made d)
  is_made-true nil_map h = cc
  is_made-true (made d) h = (d, refl)

  pub assign_made :
      (k : String) (v : V) (g : GoMap V)
      → is_made g ≡ true
      → (d : Dict V) × (assign k v g ≡ ok (made d))
  assign_made k v nil_map h = cc
  assign_made k v (made d) h = (insert k v d, refl)
