-- ===== src/DeepCopy/Memory.antt =====
-- Memory, as far as copies need it: places are handed out one after the other, and a pointer, a map or
-- a slice is nil or stands at a place.
pub mod Laws
use accelerator_config_manag.Prelude.{String, Option, none, some, List, [], ◌∷◌, ◌++◌, ℕ, suc}
use accelerator_config_manag.Prelude.Dict.{Dict}
use accelerator_config_manag.Prelude.GoMap.{GoMap, nil_map, made}

-- What a pointer, a map or a slice refers to.
pub record Place (A : Type 0) : Type 0 where
  pub address : ℕ
  pub content : A

abbrev pub Ref : Type 0 → Type 0
Ref A = Option (Place A)

-- A copy, from the first free place on, with the first free place after it.
abbrev pub Copy : Type 0 → Type 0
Copy A = A → ℕ → A × ℕ

-- `*out = *in`, for values without pointers, maps and slices.
abbrev pub plain : {A : Type 0} → Copy A
plain a n = (a, n)

-- `if in != nil { *out = new(…) … }`, and the same with `make`: a new place, and then a copy of the
-- content.
unfoldable pub copy_ref : {A : Type 0} → Copy A → Copy (Ref A)
copy_ref copy none n = (none, n)
copy_ref copy (some r) n =
    let (content, n') = copy r.content (suc n) in
    (some (record { address = n; content = content }), n')

-- `for i := range *in { (*in)[i].DeepCopyInto(&(*out)[i]) }`
unfoldable pub copy_list : {A : Type 0} → Copy A → Copy (List A)
copy_list copy [] n = ([], n)
copy_list copy (a ∷ as') n =
    let (a', n1) = copy a n in let (rest, n2) = copy_list copy as' n1 in (a' ∷ rest, n2)

-- `for key, val := range *in { (*out)[key] = *val.DeepCopy() }`: DeepCopy takes a place for the
-- value that is then copied into the map.
unfoldable pub copy_dict : {A : Type 0} → Copy A → Copy (Dict A)
copy_dict copy [] n = ([], n)
copy_dict copy ((k, a) ∷ d) n =
    let (a', n1) = copy a (suc n) in let (rest, n2) = copy_dict copy d n1 in ((k, a') ∷ rest, n2)

-- The places that a value reaches.
abbrev pub no_places : {A : Type 0} → A → List ℕ
no_places a = []

unfoldable pub places_ref : {A : Type 0} → (A → List ℕ) → Ref A → List ℕ
places_ref places none = []
places_ref places (some r) = r.address ∷ places r.content

unfoldable pub places_list : {A : Type 0} → (A → List ℕ) → List A → List ℕ
places_list places [] = []
places_list places (a ∷ as') = places a ++ places_list places as'

unfoldable pub places_dict : {A : Type 0} → (A → List ℕ) → Dict A → List ℕ
places_dict places [] = []
places_dict places ((k, a) ∷ d) = places a ++ places_dict places d

-- What is there, wherever it is.
unfoldable pub read_ref : {A V : Type 0} → (A → V) → Ref A → Option V
read_ref read none = none
read_ref read (some r) = some (read r.content)

unfoldable pub read_list : {A V : Type 0} → (A → V) → List A → List V
read_list read [] = []
read_list read (a ∷ as') = read a ∷ read_list read as'

unfoldable pub read_dict : {A V : Type 0} → (A → V) → Dict A → Dict V
read_dict read [] = []
read_dict read ((k, a) ∷ d) = (k, read a) ∷ read_dict read d

-- A map, and a slice of which it does not matter whether it is nil.
abbrev pub to_map : {V : Type 0} → Option (Dict V) → GoMap V
to_map none = nil_map
to_map (some d) = made d

abbrev pub to_slice : {V : Type 0} → Option (List V) → List V
to_slice none = []
to_slice (some xs) = xs
