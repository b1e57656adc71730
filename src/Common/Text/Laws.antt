-- ===== src/Common/Text/Laws.antt =====
-- What the text helpers return.
use mathlib.Core.List.{filter}
use mathlib.Core.Logic.{if_pos, if_neg}
use accelerator_config_manag.Prelude.{
  String, true, false, ◌&&◌, not, ◌==◌, ◌≡◌, refl, ◌≢◌, ap, String-discrete, ◌⊎◌, inl, inr, List,
  [], ◌∷◌, ◌++◌, starts_with, arith, eq_iff, eq_refl, if◌then◌else◌, Bool-cases,
}
use accelerator_config_manag.Prelude.Dict.{Dict, has, lookup-nil, lookup-cons}
use accelerator_config_manag.Common.Text.{string_in_array, remove_string, find_prefix_key}

-- A text is another one than `s`.
abbrev pub is_other : (s x : String) → Dec (x ≢ s)
is_other s x = elim (String-discrete x s) [ yes e ↦ no (λ n. n e) | no n ↦ yes n ]

found-remove_string :
    (s : String) (slice : List String) → (remove_string s slice).1 ≡ string_in_array s slice
unfolding string_in_array remove_string
found-remove_string s [] = refl
found-remove_string s (x ∷ slice) = ground (arith, found-remove_string s slice)

kept-remove_string :
    (s : String) (slice : List String) → (remove_string s slice).0 ≡ filter (is_other s) slice
unfolding remove_string
kept-remove_string s [] = refl
kept-remove_string s (x ∷ slice) = elim (Bool-cases (x == s)) [
  | inl e ↦ rw (e, if_neg (is_other s x) (λ n. n ((eq_iff x s).0 e))) (kept-remove_string s slice)
  | inr e ↦
      let differs : x ≢ s = λ p. let e' = (eq_iff x s).1 p in cc in
      rw (e, if_pos (is_other s x) differs) (ap (λ xs. x ∷ xs) (kept-remove_string s slice))
]

member-remove_string :
    (s t : String) (slice : List String)
    → string_in_array t (remove_string s slice).0 ≡ (not (s == t) && string_in_array t slice)
unfolding string_in_array remove_string
member-remove_string s t [] = ground arith
member-remove_string s t (x ∷ slice) =
    ground (arith, member-remove_string s t slice, eq_iff x s, eq_iff s t, eq_iff x t)

-- RemoveString returns the texts of the list that differ from its text, in their order and as often
-- as they stand there; so a text is in the result if it is another one and was in the list. `found`
-- says whether its text was in the list.
pub remove_string_lem :
    (s t : String) (slice : List String)
    → ((remove_string s slice).0 ≡ filter (is_other s) slice)
      × (string_in_array t (remove_string s slice).0 ≡ (not (s == t) && string_in_array t slice))
      × ((remove_string s slice).1 ≡ string_in_array s slice)
remove_string_lem s t slice =
    (kept-remove_string s slice, member-remove_string s t slice, found-remove_string s slice)

-- Removing a finalizer that was appended to a list without it gives the list back.
pub remove_string-append :
    (s : String) (slice : List String)
    → string_in_array s slice ≡ false
    → remove_string s (slice ++ s ∷ []) ≡ (slice, true)
unfolding string_in_array remove_string
remove_string-append s [] h = rw (eq_refl s) refl
remove_string-append s (x ∷ slice) h = ground (arith, remove_string-append s slice)

-- `key` is a key of the map with the prefix, or it is "" and no key has the prefix.
abbrev pub IsPrefixKey {ℓ} : {T : Type ℓ} → Dict T → String → String → Type 0
IsPrefixKey m prefix key =
    ((has key m ≡ true) × (starts_with key prefix ≡ true))
    ⊎ ((key ≡ "") × ((k : String) → starts_with k prefix ≡ true → has k m ≡ false))

IsPrefixKey-cons {ℓ} :
    {T : Type ℓ} (m : Dict T) (prefix key j : String) (v : T)
    → starts_with j prefix ≡ false
    → IsPrefixKey m prefix key
    → IsPrefixKey ((j, v) ∷ m) prefix key
IsPrefixKey-cons m prefix key j v e (inl (h, p)) = inl (rw lookup-cons (ground arith), p)
IsPrefixKey-cons m prefix key j v e (inr (h, missing)) =
    inr (h, λ k p. rw lookup-cons (ground (arith, missing k p, eq_iff j k)))

pub find_prefix_key-cons {ℓ} :
    {T : Type ℓ} (m : Dict T) (prefix key : String) (v : T)
    → find_prefix_key ((key, v) ∷ m) prefix
      ≡ (if starts_with key prefix then key else find_prefix_key m prefix)
unfolding find_prefix_key
find_prefix_key-cons m prefix key v = refl

-- FindPrefixKey returns a key of the map that has the prefix, or "" where no key has it.
pub find_prefix_key_lem {ℓ} :
    {T : Type ℓ} (m : Dict T) (prefix : String) → IsPrefixKey m prefix (find_prefix_key m prefix)
find_prefix_key_lem [] prefix = inr (unfold find_prefix_key in refl, λ k h. rw lookup-nil)
find_prefix_key_lem ((key, v) ∷ m) prefix = elim (Bool-cases (starts_with key prefix)) [
  | inl e ↦ rw (find_prefix_key-cons, e) (inl (rw (lookup-cons, eq_refl key), e))
  | inr e ↦
      rw (find_prefix_key-cons, e)
        (IsPrefixKey-cons m prefix _ key v e (find_prefix_key_lem m prefix))
]
