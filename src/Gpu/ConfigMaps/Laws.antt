-- ===== src/Gpu/ConfigMaps/Laws.antt =====
-- What addMigConfigMapData and removeDevicePluginConfigMapData do with keys of other policies and
-- with a missing specification.
use text.Mathlib.TextPositions.{starts_with-append}
use text.Mathlib.TextLemmas.{append_assoc}
use accelerator_config_manag.Prelude.{
  String, ◌<>◌, true, none, is_some, ◌∷◌, ◌≡◌, refl, sym, ap, ◌∙◌, inl, inr, arith, eq_refl,
  starts_with,
}
use accelerator_config_manag.Prelude.Dict.{Dict, has, lookup, erase, lookup-cons, lookup-erase_self}
use accelerator_config_manag.Prelude.GoMap.{made, get, entries, lookup-entries}
use accelerator_config_manag.Prelude.Run.{panic}
use accelerator_config_manag.Prelude.Eff.{pure, call, ◌>>=◌}
use accelerator_config_manag.Api.Foreign.{Foreign}
use accelerator_config_manag.Api.Meta.{ConfigMap, done}
use accelerator_config_manag.Api.Config.{Spec}
use accelerator_config_manag.Api.Gpu.{GpuNodePolicy}
use accelerator_config_manag.Labels.{text_of}
use accelerator_config_manag.Common.Text.{find_prefix_key}
use accelerator_config_manag.Common.Text.Laws.{find_prefix_key_lem, find_prefix_key-cons}
use accelerator_config_manag.Gpu.Names.{
  mig_parted_default_config_map_name, device_plugin_default_config_map_name,
}
use accelerator_config_manag.Gpu.Controls.{GpuModeManager}
use accelerator_config_manag.Gpu.External.{Library, GpuClient}
use accelerator_config_manag.Gpu.ConfigMaps.{
  config_prefix, wrapped, drop_device_plugin_config, remove_device_plugin_config_map_data,
}
use accelerator_config_manag.Gpu.ConfigMaps.Mig.{
  config_yaml, change_mig_config, replace_mig_config, add_mig_config_map_data,
}

-- The key that is found is there, if any key has the prefix.
found_key {ℓ} :
    {T : Type ℓ} (m : Dict T) (prefix k : String)
    → has k m ≡ true
    → starts_with k prefix ≡ true
    → has (find_prefix_key m prefix) m ≡ true
found_key m prefix k h p = elim (find_prefix_key_lem m prefix) [
  | inl (q, _) ↦ q
  | inr (_, missing) ↦ ground (arith, missing k p)
]

erase-cons_self {ℓ} :
    {T : Type ℓ} (k : String) (v : T) (d : Dict T) → erase k ((k, v) ∷ d) ≡ erase k d
unfolding erase
erase-cons_self k v d = rw (eq_refl k) refl

-- A key of the policy `a-b` is a key with the prefix of the policy `a`.
other_key :
    (a b h : String) → config_prefix (a <> ("-" <> b)) <> h ≡ config_prefix a <> (b <> ("-" <> h))
other_key a b h = simp append_assoc

module _ {F : Foreign} {S : Type 0} (lib : Library F) (client : GpuClient F S) where
  change_mig_config-panic :
      (m : GpuModeManager F) (origin : ConfigMap) (config : Spec F) (k : String) (s : S)
      → has k (entries config.mig_configs) ≡ true
      → starts_with k (config_prefix m.managed_by) ≡ true
      → m.instance_.spec.mig_config ≡ none
      → change_mig_config lib client m origin (config, none) s ≡ (panic, s)
  unfolding change_mig_config replace_mig_config
  change_mig_config-panic m origin config k s h p q =
      let key = find_prefix_key (entries config.mig_configs) (config_prefix m.managed_by) in
      let found : is_some (get key config.mig_configs) ≡ true =
        ap is_some (sym (lookup-entries key config.mig_configs))
        ∙ found_key (entries config.mig_configs) (config_prefix m.managed_by) k h p in
      rw (found, q) refl

  -- The policy has no `migConfig`, and the configuration of the MIG manager has a key of the policy,
  -- from when it had one. Then addMigConfigMapData panics, before it has written anything.
  pub add_mig_config_map_data-panic :
      (namespace k : String) (m : GpuModeManager F) (origin : ConfigMap) (config : Spec F) (s t : S)
      → client.get_config_map
          (record { namespace = namespace; name = mig_parted_default_config_map_name })
          s
        ≡ (done origin, t)
      → lib.unmarshal_spec (text_of (get config_yaml origin.entries)) ≡ (config, none)
      → has k (entries config.mig_configs) ≡ true
      → starts_with k (config_prefix m.managed_by) ≡ true
      → m.instance_.spec.mig_config ≡ none
      → add_mig_config_map_data lib client namespace m s ≡ (panic, t)
  unfolding add_mig_config_map_data
  add_mig_config_map_data-panic namespace k m origin config s t g u h p q =
      rw (g, u) (change_mig_config-panic m origin config k t h p q)

module _ {F : Foreign} {S : Type 0} (client : GpuClient F S) where
  drop_first :
      (policy : GpuNodePolicy F) (key raw name : String) (d : Dict String) (t : S)
      → starts_with key (config_prefix policy.metadata.name) ≡ true
      → drop_device_plugin_config client policy
          (done (record { name = name; entries = made ((key, raw) ∷ d) }))
          t
        ≡ (do
          err ← call (
              client.patch_config_map
                (record { name = name; entries = made ((key, raw) ∷ d) })
                (record { name = name; entries = made (erase key d) }))
          pure (wrapped "fail to revert device plugin ConfigMap, err " err))
            t
  unfolding drop_device_plugin_config
  drop_first policy key raw name d t p =
      let found : find_prefix_key (entries (made ((key, raw) ∷ d)))
            (config_prefix policy.metadata.name)
          ≡ key =
        find_prefix_key-cons d (config_prefix policy.metadata.name) key raw ∙ rw p refl in
      rw (found, lookup-cons, eq_refl key, erase-cons_self) refl

  -- A policy is being deleted, and the ConfigMap of the device plugin holds a key of another policy,
  -- whose name is that of the first with a dash and a text `b` behind it. The loop over the keys
  -- visits that key first. Then removeDevicePluginConfigMapData patches the ConfigMap so that the key
  -- of the other policy is gone.
  pub remove_device_plugin_config_map_data-other :
      (namespace b h raw name key : String) (policy : GpuNodePolicy F) (d : Dict String) (s t : S)
      → key ≡ config_prefix (policy.metadata.name <> ("-" <> b)) <> h
      → client.get_config_map
          (record { namespace = namespace; name = device_plugin_default_config_map_name })
          s
        ≡ (done (record { name = name; entries = made ((key, raw) ∷ d) }), t)
      → (remove_device_plugin_config_map_data client namespace policy s
          ≡ (do
            err ← call (
                client.patch_config_map
                  (record { name = name; entries = made ((key, raw) ∷ d) })
                  (record { name = name; entries = made (erase key d) }))
            pure (wrapped "fail to revert device plugin ConfigMap, err " err))
              t)
        × (lookup key (erase key d) ≡ none)
  unfolding remove_device_plugin_config_map_data
  remove_device_plugin_config_map_data-other namespace b h raw name key policy d s t k g = (
    rw g (
        drop_first policy key raw name d t (
          rw (k, other_key policy.metadata.name b h)
            (starts_with-append (config_prefix policy.metadata.name) _))),
    lookup-erase_self key d,
  )
