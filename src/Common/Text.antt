-- ===== src/Common/Text.antt =====
-- StringInArray, RemoveString, FindPrefixKey and ComputeHash of
-- internal/controller/gpunodepolicy_controller.go.
pub mod Laws
use Prim.Native.String.{slice}
use Prim.Native.Nat.{◌/◌, ◌%◌}
use accelerator_config_manag.Prelude.{ℕ, zero, suc, String, ◌<>◌, Bool, true, false, ◌||◌, ◌==◌}
use accelerator_config_manag.Prelude.{List, [], ◌∷◌, starts_with, if◌then◌else◌, ◌≡◌, refl}
use accelerator_config_manag.Prelude.Dict.{Dict}

unfoldable pub string_in_array : String → List String → Bool
string_in_array val [] = false
string_in_array val (x ∷ array) = x == val || string_in_array val array

-- The result and `found`.
unfoldable pub remove_string : String → List String → List String × Bool
remove_string s [] = ([], false)
remove_string s (item ∷ slice) =
    let (result, found) = remove_string s slice in
    if item == s then (result, true) else (item ∷ result, found)

-- The first key, in the order of the visit, with the prefix, and "" if there is none.
unfoldable pub find_prefix_key {ℓ} : {T : Type ℓ} → Dict T → String → String
find_prefix_key [] prefix = ""
find_prefix_key ((key, _) ∷ m) prefix =
    if starts_with key prefix then key else find_prefix_key m prefix

abbrev pick : List String → ℕ → String
pick [] k = ""
pick (d ∷ ds) zero = d
pick (d ∷ ds) (suc k) = pick ds k

abbrev hex_digits : List String
hex_digits =
    "0" ∷ "1" ∷ "2" ∷ "3" ∷ "4" ∷ "5" ∷ "6" ∷ "7" ∷ "8" ∷ "9" ∷ "a" ∷ "b" ∷ "c" ∷ "d" ∷ "e" ∷ "f"
    ∷ []

-- `hex.EncodeToString`: two digits a byte.
unfoldable pub encode_to_string : List ℕ → String
encode_to_string [] = ""
encode_to_string (b ∷ bytes) =
    pick hex_digits (b / 16) <> (pick hex_digits (b % 16) <> encode_to_string bytes)

-- `md5_sum` is `md5.Sum` of crypto/md5: the 16 bytes of a text's digest.
unfoldable pub compute_hash : (String → List ℕ) → String → String
unfolding encode_to_string
compute_hash md5_sum str = slice (encode_to_string (md5_sum str)) 0 6

compute_hash_empty : compute_hash (λ _. 0xd4 ∷ 0x1d ∷ 0x8c ∷ 0xd9 ∷ []) "" ≡ "d41d8c"
unfolding compute_hash
compute_hash_empty = refl
