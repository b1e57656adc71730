-- ===== src/Gpu/ConfigMaps/Kept.antt =====
-- Setting and removing the configurations of the device plugin keeps the ConfigMap of mig-parted.
use mathlib.Core.Bool.{decide}
use accelerator_config_manag.Prelude.{
  String, ◌<>◌, false, not, ◌&&◌, ◌==◌, none, some, is_some, ◌≡◌, refl, inl, inr, if◌then◌else◌,
}
use accelerator_config_manag.Prelude.GoMap.{get, remove, assign, entries}
use accelerator_config_manag.Prelude.Eff.{pure, lift, Keeps, >>=-Keeps, if-Keeps}
use accelerator_config_manag.Api.Foreign.{Foreign}
use accelerator_config_manag.Api.Meta.{ConfigMap, Error, done, NamespacedName, Fallible-cases}
use accelerator_config_manag.Api.Config.{Config-discrete}
use accelerator_config_manag.Api.Gpu.{GpuNodePolicy}
use accelerator_config_manag.Labels.{text_of}
use accelerator_config_manag.Common.Text.{find_prefix_key, compute_hash}
use accelerator_config_manag.Gpu.Names.{
  device_plugin_default_config_map_name, mig_parted_default_config_map_name,
}
use accelerator_config_manag.Gpu.Controls.{GpuModeManager}
use accelerator_config_manag.Gpu.External.{Library, GpuClient}
use accelerator_config_manag.Gpu.ConfigMaps.{
  config_prefix, is_mig_none_strategy, device_plugin_config, write_device_plugin_config,
  change_device_plugin_config, add_device_plugin_config_map_data, drop_device_plugin_config,
  remove_device_plugin_config_map_data,
}
use accelerator_config_manag.Gpu.ConfigMaps.Total.{KeepsData}

module _ {F : Foreign} {S : Type 0} (lib : Library F) (client : GpuClient F S)
    (Plugin Mig : S → Type 0) (keeps : KeepsData client Plugin Mig) where
  write_device_plugin_config-Keeps :
      (origin : ConfigMap) (m : GpuModeManager F) (raw : String × Error)
      → (origin.name == mig_parted_default_config_map_name) ≡ false
      → Keeps Mig (write_device_plugin_config lib client origin m raw)
  unfolding write_device_plugin_config
  write_device_plugin_config-Keeps origin m (raw, some e) h s i = i
  write_device_plugin_config-Keeps origin m (raw, none) h s i =
      >>=-Keeps Mig
        (lift (
          assign (m.managed_by <> ("-" <> compute_hash lib.md5_sum raw)) raw
            (remove m.device_plugin_config_name origin.entries)))
        _ (λ t j. j)
        (λ entries' t j.
          keeps.patched_config_map origin (record origin { entries = entries' }) t h j)
        s i

  change_device_plugin_config-Keeps :
      (m : GpuModeManager F) (origin : ConfigMap)
      → (origin.name == mig_parted_default_config_map_name) ≡ false
      → Keeps Mig (change_device_plugin_config lib client m origin)
  unfolding change_device_plugin_config
  change_device_plugin_config-Keeps m origin h =
      let name = find_prefix_key (entries origin.entries) (config_prefix m.managed_by) in
      let m' : GpuModeManager F = record m { device_plugin_config_name = name } in
      let raw = get name origin.entries in
      let same =
        decide
          (Config-discrete F (lib.unmarshal_config (text_of raw)).0 (device_plugin_config lib m)) in
      let write =
        write_device_plugin_config lib client origin m'
          (lib.marshal_config (device_plugin_config lib m)) in
      if-Keeps Mig
        (not (is_some raw)
          && not (is_some m.instance_.spec.time_slicing_config)
          && is_mig_none_strategy m.instance_.spec.mig_config)
        (pure (m', none)) (if same then pure (m', none) else write) (λ s i. i)
        (if-Keeps Mig same (pure (m', none)) write (λ s i. i)
          (write_device_plugin_config-Keeps origin m'
            (lib.marshal_config (device_plugin_config lib m)) h))

  other_name :
      (name : String)
      → name ≡ device_plugin_default_config_map_name
      → (name == mig_parted_default_config_map_name) ≡ false
  other_name name e = rw e refl

  pub add_device_plugin_config_map_data-Keeps :
      (namespace : String) (m : GpuModeManager F)
      → Keeps Mig (add_device_plugin_config_map_data lib client namespace m)
  unfolding add_device_plugin_config_map_data
  add_device_plugin_config_map_data-Keeps namespace m s i =
      let req : NamespacedName = record {
        namespace = namespace;
        name = device_plugin_default_config_map_name;
      } in
      elim (Fallible-cases (client.get_config_map req s).0) [
        | inl (origin, e) ↦ rw e (
            change_device_plugin_config-Keeps m origin
              (other_name origin.name (keeps.named req s origin e)) _
              (keeps.got_config_map req s i))
        | inr (x, e) ↦ rw e (keeps.got_config_map req s i)
      ]

  drop_device_plugin_config-Keeps :
      (policy : GpuNodePolicy F) (origin : ConfigMap)
      → (origin.name == mig_parted_default_config_map_name) ≡ false
      → Keeps Mig (drop_device_plugin_config client policy (done origin))
  unfolding drop_device_plugin_config
  drop_device_plugin_config-Keeps policy origin h =
      let name = find_prefix_key (entries origin.entries) (config_prefix policy.metadata.name) in
      if-Keeps Mig (is_some (get name origin.entries)) _ (pure none)
        (λ s i.
          keeps.patched_config_map origin (record origin { entries = remove name origin.entries }) s
            h i)
        (λ s i. i)

  pub remove_device_plugin_config_map_data-Keeps :
      (namespace : String) (policy : GpuNodePolicy F)
      → Keeps Mig (remove_device_plugin_config_map_data client namespace policy)
  unfolding remove_device_plugin_config_map_data drop_device_plugin_config
  remove_device_plugin_config_map_data-Keeps namespace policy s i =
      let req : NamespacedName = record {
        namespace = namespace;
        name = device_plugin_default_config_map_name;
      } in
      elim (Fallible-cases (client.get_config_map req s).0) [
        | inl (origin, e) ↦ rw e (
            drop_device_plugin_config-Keeps policy origin
              (other_name origin.name (keeps.named req s origin e)) _
              (keeps.got_config_map req s i))
        | inr (x, e) ↦ rw e (keeps.got_config_map req s i)
      ]
