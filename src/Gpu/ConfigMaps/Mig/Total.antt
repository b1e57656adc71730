-- ===== src/Gpu/ConfigMaps/Mig/Total.antt =====
-- Setting and removing the configurations of mig-parted does not panic on ConfigMaps that have data.
use mathlib.Core.Bool.{decide}
use accelerator_config_manag.Prelude.{
  String, ◌<>◌, true, not, ◌&&◌, Option, none, some, is_some, map, ◌≡◌, refl, Bool-cases, inl, inr,
}
use accelerator_config_manag.Prelude.GoMap.{made, get, remove, is_made, assign_made, entries}
use accelerator_config_manag.Prelude.Eff.{pure, Ends, if-Ends, Anything}
use accelerator_config_manag.Api.Foreign.{Foreign}
use accelerator_config_manag.Api.Meta.{ConfigMap, Error, done, Fallible-cases}
use accelerator_config_manag.Api.Config.{Spec, slices-discrete, MigConfigSpecSlice}
use accelerator_config_manag.Api.Gpu
use accelerator_config_manag.Api.Gpu.{GpuNodePolicy}
use accelerator_config_manag.Labels.{text_of}
use accelerator_config_manag.Common.Text.{find_prefix_key, compute_hash}
use accelerator_config_manag.Gpu.Names.{mig_parted_default_config_map_name}
use accelerator_config_manag.Gpu.Controls.{GpuModeManager}
use accelerator_config_manag.Gpu.External.{Library, GpuClient}
use accelerator_config_manag.Gpu.ConfigMaps.{config_prefix, is_mig_none_strategy}
use accelerator_config_manag.Gpu.ConfigMaps.Mig.{
  config_yaml, write_mig_config, replace_mig_config, change_mig_config, add_mig_config_map_data,
  write_reverted, drop_mig_config, revert_mig_config, remove_mig_config_map_data,
  convert_spec_to_mig_config_spec, slices_of,
}
use accelerator_config_manag.Gpu.ConfigMaps.Total.{remove-is_made, HasData, Kept, patched-Kept}

module _ {F : Foreign} {S : Type 0} (lib : Library F) (client : GpuClient F S) where
  write_mig_config-Ends :
      (origin : ConfigMap) (m : GpuModeManager F) (raw : String × Error) (s : S)
      → is_made origin.entries ≡ true
      → Ends (Kept m) (write_mig_config lib client origin m raw s)
  unfolding write_mig_config
  write_mig_config-Ends origin m (raw, some e) s h = (refl, refl, refl)
  write_mig_config-Ends origin m (raw, none) s h =
      let (d, e) = assign_made config_yaml raw origin.entries h in
      rw e (patched-Kept lib client m _ _ _ _ s (refl, refl, refl) (refl, refl, refl))

  replace_mig_config-Ends :
      (origin : ConfigMap) (m : GpuModeManager F) (config : Spec F)
      (old : Option (MigConfigSpecSlice F)) (spec : Option (Gpu.MigConfigSpec F)) (s : S)
      → is_made origin.entries ≡ true
      → is_made config.mig_configs ≡ true
      → is_some spec ≡ true
      → Ends (Kept m) (replace_mig_config lib client origin m config old spec s)
  unfolding replace_mig_config
  replace_mig_config-Ends origin m config old none s h k p = cc
  replace_mig_config-Ends origin m config old (some spec) s h k p =
      let slices = map convert_spec_to_mig_config_spec spec.config_slice in
      let name = m.managed_by <> ("-" <> compute_hash lib.md5_sum (lib.marshal_slices slices).0) in
      let m' : GpuModeManager F = record m { mig_config_name = name } in
      let (d, e) =
        assign_made name (some slices) (remove m.mig_config_name config.mig_configs)
          (remove-is_made m.mig_config_name config.mig_configs k) in
      rw e (
        if-Ends (Kept m) (decide (slices-discrete F old (some slices))) (pure (m', none))
          (write_mig_config lib client origin m'
            (lib.marshal_spec (record config { mig_configs = made d })))
          s (λ e'. (refl, refl, refl))
          (λ e'.
            write_mig_config-Ends origin m'
              (lib.marshal_spec (record config { mig_configs = made d })) s h))

  change_mig_config-Ends :
      (m : GpuModeManager F) (origin : ConfigMap) (answer : Spec F × Error) (s : S)
      → is_made origin.entries ≡ true
      → ((config : Spec F) → answer ≡ (config, none) → is_made config.mig_configs ≡ true)
      → is_some m.instance_.spec.mig_config ≡ true
      → Ends (Kept m) (change_mig_config lib client m origin answer s)
  unfolding change_mig_config
  change_mig_config-Ends m origin (config, some e) s h k p = (refl, refl, refl)
  change_mig_config-Ends m origin (config, none) s h k p =
      let name = find_prefix_key (entries config.mig_configs) (config_prefix m.managed_by) in
      let m' : GpuModeManager F = record m { mig_config_name = name } in
      let old = slices_of (get name config.mig_configs) in
      if-Ends (Kept m)
        (not (is_some (get name config.mig_configs))
          && is_mig_none_strategy m.instance_.spec.mig_config)
        (pure (m', none))
        (replace_mig_config lib client origin m' config old m.instance_.spec.mig_config) s
        (λ e. (refl, refl, refl))
        (λ e.
          replace_mig_config-Ends origin m' config old m.instance_.spec.mig_config s h
            (k config refl) p)

  pub add_mig_config_map_data-Ends :
      (namespace : String) (m : GpuModeManager F) (s : S)
      → ((config_map : ConfigMap)
          → (client.get_config_map
              (record { namespace = namespace; name = mig_parted_default_config_map_name })
              s).0
            ≡ done config_map
          → HasData lib config_map)
      → is_some m.instance_.spec.mig_config ≡ true
      → Ends (Kept m) (add_mig_config_map_data lib client namespace m s)
  unfolding add_mig_config_map_data
  add_mig_config_map_data-Ends namespace m s h p =
      elim (Fallible-cases
        (client.get_config_map
          (record { namespace = namespace; name = mig_parted_default_config_map_name }) s).0) [
            | inl (origin, e) ↦
                let d = h origin e in
                rw e (
                  change_mig_config-Ends m origin
                    (lib.unmarshal_spec (text_of (get config_yaml origin.entries))) _ d.has_entries
                    d.has_configs p)
            | inr (x, e) ↦ rw e (refl, refl, refl)
          ]

  write_reverted-Ends :
      (config_map : ConfigMap) (raw : String × Error) (s : S)
      → is_made config_map.entries ≡ true
      → Ends Anything (write_reverted lib client config_map raw s)
  unfolding write_reverted
  write_reverted-Ends config_map (raw, some e) s h = tt
  write_reverted-Ends config_map (raw, none) s h =
      let (d, e) = assign_made config_yaml raw config_map.entries h in rw e tt

  drop_mig_config-Ends :
      (policy : GpuNodePolicy F) (config_map : ConfigMap) (answer : Spec F × Error) (s : S)
      → is_made config_map.entries ≡ true
      → Ends Anything (drop_mig_config lib client policy config_map answer s)
  unfolding drop_mig_config
  drop_mig_config-Ends policy config_map (config, some e) s h = tt
  drop_mig_config-Ends policy config_map (config, none) s h =
      elim (Bool-cases (
        is_some (
          get (find_prefix_key (entries config.mig_configs) (config_prefix policy.metadata.name))
            config.mig_configs))) [
              | inl e ↦ rw e (write_reverted-Ends config_map _ s h)
              | inr e ↦ rw e tt
            ]

  pub remove_mig_config_map_data-Ends :
      (namespace : String) (policy : GpuNodePolicy F) (s : S)
      → ((config_map : ConfigMap)
          → (client.get_config_map
              (record { namespace = namespace; name = mig_parted_default_config_map_name })
              s).0
            ≡ done config_map
          → HasData lib config_map)
      → Ends Anything (remove_mig_config_map_data lib client namespace policy s)
  unfolding remove_mig_config_map_data revert_mig_config
  remove_mig_config_map_data-Ends namespace policy s h =
      elim (Fallible-cases
        (client.get_config_map
          (record { namespace = namespace; name = mig_parted_default_config_map_name }) s).0) [
            | inl (config_map, e) ↦ rw e (
                drop_mig_config-Ends policy config_map
                  (lib.unmarshal_spec (text_of (get config_yaml config_map.entries)))
                  (client.get_config_map
                    (record { namespace = namespace; name = mig_parted_default_config_map_name })
                    s).1
                  (h config_map e).has_entries)
            | inr (x, e) ↦ rw e tt
          ]
