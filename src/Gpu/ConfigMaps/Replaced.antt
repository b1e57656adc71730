-- ===== src/Gpu/ConfigMaps/Replaced.antt =====
-- The data of a ConfigMap in which addDevicePluginConfigMapData has replaced a configuration.
use mathlib.Core.Bool.{decide, decide_iff}
use text.Mathlib.TextLemmas.{append_assoc}
use text.Mathlib.TextPositions.{starts_with-append}
use accelerator_config_manag.Prelude.{
  String, ◌<>◌, true, false, ◌==◌, none, some, is_some, Option-cases, ◌≡◌, refl, sym, ap, ◌∙◌, inl,
  inr, arith, eq_iff, eq_refl, if◌then◌else◌, Bool-cases, starts_with,
}
use accelerator_config_manag.Prelude.Dict.{
  Dict, lookup, insert, erase, has, lookup-insert, lookup-erase,
}
use accelerator_config_manag.Api.Foreign.{Foreign}
use accelerator_config_manag.Common.Text.{find_prefix_key, compute_hash}
use accelerator_config_manag.Common.Text.Laws.{find_prefix_key_lem}
use accelerator_config_manag.Gpu.Controls.{GpuModeManager}
use accelerator_config_manag.Gpu.External.{Library}
use accelerator_config_manag.Gpu.ConfigMaps.{config_prefix}

-- The map has no key with the prefix but the one that is found.
abbrev pub IsOnlyKey : String → Dict String → Type 0
IsOnlyKey prefix d =
    (k : String) → starts_with k prefix ≡ true → has k d ≡ true → k ≡ find_prefix_key d prefix

pub not_decided : {P : Type 0} (d : Dec P) → ¬ P → decide d ≡ false
not_decided d n = elim (Bool-cases (decide d)) [
  | inl e ↦ absurd (n ((decide_iff d).0 e))
  | inr e ↦ e
]

-- A text with the prefix is not one without it.
apart :
    (a b prefix : String)
    → starts_with a prefix ≡ true
    → starts_with b prefix ≡ false
    → (a == b) ≡ false
apart a b prefix p q = elim (Bool-cases (a == b)) [
  | inl e ↦ let same = (eq_iff a b).0 e in let q' = rw (← same) at q in cc
  | inr e ↦ e
]

present : (name k raw : String) → is_some (if name == k then some raw else none) ≡ true → k ≡ name
present name k raw h = elim (Bool-cases (name == k)) [
  | inl e ↦ sym ((eq_iff name k).0 e)
  | inr e ↦ let h' = rw e at h in cc
]

module _ {F : Foreign} (lib : Library F) (m : GpuModeManager F) where
  -- The key of a configuration.
  abbrev pub config_name : String → String
  config_name raw = m.managed_by <> ("-" <> compute_hash lib.md5_sum raw)

  -- The data with the configuration in the place of the policy's old one.
  abbrev pub replaced : String → Dict String → Dict String
  replaced raw d =
      insert (config_name raw) raw (erase (find_prefix_key d (config_prefix m.managed_by)) d)

  pub named-prefix :
      (raw : String) → starts_with (config_name raw) (config_prefix m.managed_by) ≡ true
  named-prefix raw =
      rw (← append_assoc m.managed_by "-" (compute_hash lib.md5_sum raw))
        (starts_with-append (config_prefix m.managed_by) _)

  pub lookup-replaced :
      (raw k : String) (d : Dict String)
      → lookup k (replaced raw d) ≡ (
          if config_name raw == k
          then some raw
          else if find_prefix_key d (config_prefix m.managed_by) == k
          then none
          else lookup k d)
  lookup-replaced raw k d =
      lookup-insert k (config_name raw) raw _
      ∙ rw (lookup-erase k (find_prefix_key d (config_prefix m.managed_by)) d) refl

  pub own_key :
      (raw k : String) (d : Dict String)
      → IsOnlyKey (config_prefix m.managed_by) d
      → starts_with k (config_prefix m.managed_by) ≡ true
      → lookup k (replaced raw d) ≡ (if config_name raw == k then some raw else none)
  own_key raw k d only p =
      let old = find_prefix_key d (config_prefix m.managed_by) in
      elim (Option-cases (lookup k d)) [
        | inl h ↦ lookup-replaced raw k d ∙ rw h (ground arith)
        | inr (v, h) ↦ lookup-replaced raw k d ∙ rw (only k p (rw h refl), eq_refl old) refl
      ]

  pub other_key :
      (raw k : String) (d : Dict String)
      → (k == "") ≡ false
      → starts_with k (config_prefix m.managed_by) ≡ false
      → lookup k (replaced raw d) ≡ lookup k d
  other_key raw k d nonempty p =
      let old = find_prefix_key d (config_prefix m.managed_by) in
      let not_new : (config_name raw == k) ≡ false =
        apart (config_name raw) k (config_prefix m.managed_by) (named-prefix raw) p in
      let not_old : (old == k) ≡ false = elim (find_prefix_key_lem d (config_prefix m.managed_by)) [
        | inl (h, q) ↦ apart old k (config_prefix m.managed_by) q p
        | inr (empty, _) ↦ ground (arith, eq_iff old k, eq_iff k "")
      ] in
      lookup-replaced raw k d ∙ rw (not_new, not_old) refl

  pub found_again :
      (raw : String) (d : Dict String)
      → IsOnlyKey (config_prefix m.managed_by) d
      → find_prefix_key (replaced raw d) (config_prefix m.managed_by) ≡ config_name raw
  found_again raw d only =
      let prefix = config_prefix m.managed_by in
      elim (find_prefix_key_lem (replaced raw d) prefix) [
        | inl (h, p) ↦
            let there = sym (ap is_some (own_key raw _ d only p)) ∙ h in
            present (config_name raw) _ raw there
        | inr (_, missing) ↦
            let gone = missing (config_name raw) (named-prefix raw) in
            let there : has (config_name raw) (replaced raw d) ≡ true =
              ap is_some (own_key raw (config_name raw) d only (named-prefix raw))
              ∙ rw (eq_refl (config_name raw)) refl in
            cc
      ]
