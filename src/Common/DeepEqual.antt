-- ===== src/Common/DeepEqual.antt =====
-- `reflect.DeepEqual` on the `Nodes` maps of two policy statuses: both are nil, or neither is and
-- each key of one has an equal value in the other, in whatever order the keys stand.
pub mod Laws
use mathlib.Core.Bool.{decide}
use accelerator_config_manag.Prelude.{Bool, true, false, ◌&&◌, Option, none, some, [], ◌∷◌}
use accelerator_config_manag.Prelude.Dict.{Dict, lookup}
use accelerator_config_manag.Prelude.GoMap.{GoMap, nil_map, made}

module _ {V : Type 0} (equal : Discrete V) where
  abbrev pub holds : Option V → V → Bool
  holds none v = false
  holds (some w) v = decide (equal w v)

  unfoldable pub included : Dict V → Dict V → Bool
  included [] e = true
  included ((k, v) ∷ d) e = holds (lookup k e) v && included d e

  unfoldable pub deep_equal : GoMap V → GoMap V → Bool
  deep_equal nil_map nil_map = true
  deep_equal nil_map (made e) = false
  deep_equal (made d) nil_map = false
  deep_equal (made d) (made e) = included d e && included e d
