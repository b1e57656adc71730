-- ===== src/Common/DeepEqual/Laws.antt =====
-- `reflect.DeepEqual` on the `Nodes` maps: it holds exactly of equal maps.
use mathlib.Core.Bool.{decide_iff}
use accelerator_config_manag.Prelude.{
  String, true, ◌==◌, Option, none, some, Option-cases, inl, inr, [], ◌∷◌, ◌≡◌, ◌↔◌, refl, sym, ap,
  ◌∙◌, arith, eq_iff, eq_refl, Bool-cases,
}
use accelerator_config_manag.Prelude.Dict.{Dict, lookup, UniqueKeys, SameMap, lookup-cons}
use accelerator_config_manag.Prelude.GoMap.{GoMap, nil_map, made}
use accelerator_config_manag.Common.DeepEqual.{holds, included, deep_equal}

-- Both are nil, or neither is and they are the same map.
abbrev pub Same : {V : Type 0} → GoMap V → GoMap V → Type 0
Same nil_map nil_map = Unit
Same nil_map (made e) = ⊥
Same (made d) nil_map = ⊥
Same (made d) (made e) = SameMap d e

abbrev pub KeysOnce : {V : Type 0} → GoMap V → Type 0
KeysOnce nil_map = Unit
KeysOnce (made d) = UniqueKeys d

module _ {V : Type 0} (equal : Discrete V) where
  some-injective : {v w : V} → some v ≡ some w → v ≡ w
  some-injective e = cc

  holds-some : (o : Option V) (v : V) → holds equal o v ≡ true → o ≡ some v
  holds-some none v h = cc
  holds-some (some w) v h = ap (λ x. some x) ((decide_iff (equal w v)).0 h)

  some-holds : (o : Option V) (v : V) → o ≡ some v → holds equal o v ≡ true
  some-holds none v h = cc
  some-holds (some w) v h = (decide_iff (equal w v)).1 (some-injective h)

  -- Each entry of the first is an entry of the second.
  Within : Dict V → Dict V → Type 0
  Within d e = (k : String) (v : V) → lookup k d ≡ some v → lookup k e ≡ some v

  Within-tail :
      (k : String) (v : V) (d e : Dict V) → lookup k d ≡ none → Within ((k, v) ∷ d) e → Within d e
  unfolding Within
  Within-tail k v d e fresh w j u h =
      w j u (lookup-cons j k v d ∙ ground (arith, eq_iff k j, h, fresh))

  Within-cons :
      (k : String) (v : V) (d e : Dict V) → lookup k e ≡ some v → Within d e → Within ((k, v) ∷ d) e
  unfolding Within
  Within-cons k v d e here w j u h =
      let h' = sym (lookup-cons j k v d) ∙ h in
      elim (Bool-cases (k == j)) [
        | inl q ↦ ground (arith, eq_iff k j, h', here)
        | inr q ↦ w j u (ground (arith, h'))
      ]

  included-Within : (d e : Dict V) → included equal d e ≡ true → Within d e
  unfolding included Within lookup
  included-Within [] e h = λ j u l. cc
  included-Within ((k, v) ∷ d) e h =
      Within-cons k v d e (holds-some (lookup k e) v (ground arith))
        (included-Within d e (ground arith))

  Within-included : (d e : Dict V) → UniqueKeys d → Within d e → included equal d e ≡ true
  unfolding included Within
  Within-included [] e u w = refl
  Within-included ((k, v) ∷ d) e (fresh, u) w =
      let here = some-holds (lookup k e) v (w k v (lookup-cons k k v d ∙ rw (eq_refl k) refl)) in
      let rest = Within-included d e u (Within-tail k v d e fresh w) in ground arith

  Within-SameMap : (d e : Dict V) → Within d e → Within e d → SameMap d e
  unfolding Within
  Within-SameMap d e w w' k = elim (Option-cases (lookup k d)) [
    | inr (v, h) ↦ h ∙ sym (w k v h)
    | inl h ↦ elim (Option-cases (lookup k e)) [
      | inl h' ↦ h ∙ sym h'
      | inr (v, h') ↦ w' k v h' ∙ sym h'
    ]
  ]

  SameMap-Within : (d e : Dict V) → SameMap d e → Within d e
  unfolding Within
  SameMap-Within d e same k v h = sym (same k) ∙ h

  -- The comparison of two maps, each key of which stands once, is true exactly if both are nil, or
  -- neither is and they have the same value under every key.
  pub deep_equal_lem :
      (g h : GoMap V) → KeysOnce g → KeysOnce h → (deep_equal equal g h ≡ true) ↔ Same g h
  unfolding deep_equal
  deep_equal_lem nil_map nil_map u w = ((λ e. tt), (λ e. refl))
  deep_equal_lem nil_map (made e) u w = ((λ q. cc), (λ q. absurd q))
  deep_equal_lem (made d) nil_map u w = ((λ q. cc), (λ q. absurd q))
  deep_equal_lem (made d) (made e) u w = (
    (λ q.
        Within-SameMap d e (included-Within d e (ground arith))
          (included-Within e d (ground arith))),
    (λ same.
        let there = Within-included d e u (SameMap-Within d e same) in
        let back = Within-included e d w (SameMap-Within e d (λ k. sym (same k))) in ground arith),
  )
