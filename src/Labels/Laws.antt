-- ===== src/Labels/Laws.antt =====
-- What one step of the label loops does to a map that is not nil: it never panics, the label reads
-- back, the other labels stay, and the flag is raised exactly when the map changed.
use accelerator_config_manag.Prelude.{String, Bool, false, ◌||◌, Option, none, some, ◌==◌, ◌≡◌, ◌≢◌}
use accelerator_config_manag.Prelude.{sym, ap, arith, eq_iff, if◌then◌else◌, not, ◌&&◌}
use accelerator_config_manag.Prelude.Dict.{
  Dict, lookup, insert, erase, has, lookup-insert, lookup-erase,
}
use accelerator_config_manag.Prelude.GoMap.{made}
use accelerator_config_manag.Prelude.Run.{ok}
use accelerator_config_manag.Labels.{
  differs, text_of, ensure_label, ensure_config_label, drop_label,
}

-- The entries after `ensure_label`, `ensure_config_label` and `drop_label`.
pub ensured : String → String → Dict String → Dict String
ensured key value d = if differs (lookup key d) value then insert key value d else d

pub ensured_config : String → String → Dict String → Dict String
ensured_config key name d =
    if name == "" then d else if text_of (lookup key d) == name then d else insert key name d

pub dropped : String → Dict String → Dict String
dropped key d = if has key d then erase key d else d

abbrev pub config_differs : String → String → Dict String → Bool
config_differs key name d = not (name == "") && not (text_of (lookup key d) == name)

-- A label that does not differ holds the value.
pub differs-false : (o : Option String) (value : String) → differs o value ≡ false → o ≡ some value
differs-false none value h = cc
differs-false (some v) value h = ground (arith, eq_iff v value)

pub text_of-eq : (o : Option String) (name : String) → name ≢ "" → text_of o ≡ name → o ≡ some name
text_of-eq none name h e = absurd (h (sym e))
text_of-eq (some v) name h e = ap some e

module _ (key value : String) (d : Dict String) where
  pub ensure_label_made :
      (b : Bool)
      → ensure_label key value (made d, b)
        ≡ ok (made (ensured key value d), b || differs (lookup key d) value)
  unfolding ensure_label ensured
  ensure_label_made b = ground arith

  pub ensure_config_label_made :
      (b : Bool)
      → ensure_config_label key value (made d, b)
        ≡ ok (made (ensured_config key value d), b || config_differs key value d)
  unfolding ensure_config_label ensured_config
  ensure_config_label_made b = ground arith

  pub lookup-ensured :
      (j : String) → lookup j (ensured key value d) ≡ (if key == j then some value else lookup j d)
  unfolding ensured
  lookup-ensured j =
      ground (arith, lookup-insert j key value d, eq_iff key j, differs-false (lookup key d) value)

  pub lookup-ensured_config :
      (j : String)
      → lookup j (ensured_config key value d)
        ≡ (if value == "" then lookup j d else if key == j then some value else lookup j d)
  unfolding ensured_config
  lookup-ensured_config j = ground (
    arith,
    lookup-insert j key value d,
    eq_iff key j,
    eq_iff (text_of (lookup key d)) value,
    eq_iff value "",
    text_of-eq (lookup key d) value,
  )

module _ (key : String) (d : Dict String) where
  pub drop_label_made :
      (b : Bool) → drop_label key (made d, b) ≡ (made (dropped key d), b || has key d)
  unfolding drop_label dropped
  drop_label_made b = ground arith

  pub lookup-dropped :
      (j : String) → lookup j (dropped key d) ≡ (if key == j then none else lookup j d)
  unfolding dropped
  lookup-dropped j = ground (arith, lookup-erase j key d, eq_iff key j)

module _ (key value : String) (d : Dict String) where
  pub ensured-eq : differs (lookup key d) value ≡ false → ensured key value d ≡ d
  unfolding ensured
  ensured-eq h = rw h

  pub ensured_config-eq : config_differs key value d ≡ false → ensured_config key value d ≡ d
  unfolding ensured_config
  ensured_config-eq h = ground arith

pub dropped-eq : (key : String) (d : Dict String) → has key d ≡ false → dropped key d ≡ d
unfolding dropped
dropped-eq key d h = rw h
