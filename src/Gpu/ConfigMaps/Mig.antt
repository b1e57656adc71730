-- ===== src/Gpu/ConfigMaps/Mig.antt =====
-- The ConfigMap of the MIG manager: addMigConfigMapData and removeMigConfigMapData of
-- internal/controller/gpunodepolicy_controller.go.
pub mod Total
use mathlib.Core.Bool.{decide}
use accelerator_config_manag.Prelude.{String, ◌<>◌, true, not, ◌&&◌}
use accelerator_config_manag.Prelude.{Option, none, some, map, if◌then◌else◌, is_some}
use accelerator_config_manag.Prelude.GoMap.{get, assign, remove, entries}
use accelerator_config_manag.Prelude.Run.{panic}
use accelerator_config_manag.Prelude.Eff.{Eff, pure, lift, call, ◌>>=◌}
use accelerator_config_manag.Api.Foreign.{Foreign}
use accelerator_config_manag.Api.Meta.{ConfigMap, Error, Fallible, done, failed, wrap}
use accelerator_config_manag.Api.Config.{MigConfigSpec, MigConfigSpecSlice, Spec, slices-discrete}
use accelerator_config_manag.Api.Gpu
use accelerator_config_manag.Api.Gpu.{GpuNodePolicy}
use accelerator_config_manag.Labels.{text_of}
use accelerator_config_manag.Common.Text.{find_prefix_key, compute_hash}
use accelerator_config_manag.Gpu.Names.{mig_parted_default_config_map_name}
use accelerator_config_manag.Gpu.Controls.{GpuModeManager}
use accelerator_config_manag.Gpu.External.{Library, GpuClient}
use accelerator_config_manag.Gpu.ConfigMaps.{config_prefix, is_mig_none_strategy, patched, wrapped}

abbrev pub config_yaml : String
config_yaml = "config.yaml"

module _ {F : Foreign} where
  -- `convertSpecToMigConfigSpec` into a zero MigConfigSpec.
  abbrev pub convert_spec_to_mig_config_spec : Gpu.MigConfigSpecSlice F → MigConfigSpec F
  convert_spec_to_mig_config_spec spec = record {
    device_filter = F.any_string spec.device_filter;
    devices = F.any_string spec.devices;
    mig_enabled = true;
    mig_devices = spec.mig_devices;
  }

  -- `oriConfig.MigConfigs[name]`, the nil slice where there is no such key.
  abbrev pub slices_of : Option (Option (MigConfigSpecSlice F)) → Option (MigConfigSpecSlice F)
  slices_of none = none
  slices_of (some slices) = slices

module _ {F : Foreign} {S : Type 0} (lib : Library F) (client : GpuClient F S) where
  -- From the last `yaml.Marshal(migConfig)` on.
  unfoldable pub write_mig_config :
      ConfigMap → GpuModeManager F → String × Error → Eff S (GpuModeManager F × Error)
  write_mig_config origin m (raw, some e) = pure (m, some (wrap "marshal error: " e))
  write_mig_config origin m (raw, none) = do
    entries' ← lift (assign config_yaml raw origin.entries)
    err ← call (client.patch_config_map origin (record origin { entries = entries' }))
    pure (
        patched m (record m { mig_config_updated = true })
          "fail to update mig manager ConfigMap, err " err)

  -- From the loop over `manager.instance.Spec.MigConfig.ConfigSlice` on: a nil pointer there panics.
  unfoldable pub replace_mig_config :
      ConfigMap
      → GpuModeManager F
      → Spec F
      → Option (MigConfigSpecSlice F)
      → Option (Gpu.MigConfigSpec F)
      → Eff S (GpuModeManager F × Error)
  unfolding write_mig_config
  replace_mig_config origin m mig_config old none = lift panic
  replace_mig_config origin m mig_config old (some config) = do
    let slices = map convert_spec_to_mig_config_spec config.config_slice
    let name = m.managed_by <> ("-" <> compute_hash lib.md5_sum (lib.marshal_slices slices).0)
    let m' = record m { mig_config_name = name }
    configs ← lift (assign name (some slices) (remove m.mig_config_name mig_config.mig_configs))
    if decide (slices-discrete F old (some slices))
        then pure (m', none)
        else write_mig_config origin m'
            (lib.marshal_spec (record mig_config { mig_configs = configs }))

  unfoldable pub change_mig_config :
      GpuModeManager F → ConfigMap → Spec F × Error → Eff S (GpuModeManager F × Error)
  unfolding replace_mig_config
  change_mig_config m origin (config, some e) = pure (m, some (wrap "unmarshal error: " e))
  change_mig_config m origin (config, none) =
      let name = find_prefix_key (entries config.mig_configs) (config_prefix m.managed_by) in
      let m' = record m { mig_config_name = name } in
      let old = get name config.mig_configs in
      if not (is_some old) && is_mig_none_strategy m.instance_.spec.mig_config
      then pure (m', none)
      else replace_mig_config origin m' config (slices_of old) m.instance_.spec.mig_config

  -- `oriConfig` and `migConfig` are read from the same text.
  abbrev pub with_mig_config_map :
      GpuModeManager F → Fallible ConfigMap → Eff S (GpuModeManager F × Error)
  with_mig_config_map m (done origin) =
      change_mig_config m origin (lib.unmarshal_spec (text_of (get config_yaml origin.entries)))
  with_mig_config_map m (failed e) =
      pure (m, some (wrap "unable to get mig manager ConfigMap, err " e))

  -- `addMigConfigMapData` in the controller's namespace.
  unfoldable pub add_mig_config_map_data :
      String → GpuModeManager F → Eff S (GpuModeManager F × Error)
  unfolding change_mig_config
  add_mig_config_map_data namespace m = do
    answer ← call (
        client.get_config_map
          (record { namespace = namespace; name = mig_parted_default_config_map_name }))
    with_mig_config_map m answer

  -- From `yaml.Marshal(migConfig)` on in `removeMigConfigMapData`.
  unfoldable pub write_reverted : ConfigMap → String × Error → Eff S Error
  write_reverted config_map (raw, some e) = pure (some (wrap "marshal error: " e))
  write_reverted config_map (raw, none) = do
    entries' ← lift (assign config_yaml raw config_map.entries)
    err ← call (client.patch_config_map config_map (record config_map { entries = entries' }))
    pure (wrapped "fail to revert mig manager ConfigMap, err " err)

  unfoldable pub drop_mig_config : GpuNodePolicy F → ConfigMap → Spec F × Error → Eff S Error
  unfolding write_reverted
  drop_mig_config policy config_map (config, some e) = pure (some (wrap "unmarshal error: " e))
  drop_mig_config policy config_map (config, none) =
      let name =
        find_prefix_key (entries config.mig_configs) (config_prefix policy.metadata.name) in
      if is_some (get name config.mig_configs)
      then write_reverted config_map
          (lib.marshal_spec (record config { mig_configs = remove name config.mig_configs }))
      else pure none

  unfoldable pub revert_mig_config : GpuNodePolicy F → Fallible ConfigMap → Eff S Error
  unfolding drop_mig_config
  revert_mig_config policy (failed e) =
      pure
        (if e.is_not_found then none else some (wrap "unable to get mig manager ConfigMap, err " e))
  revert_mig_config policy (done config_map) =
      drop_mig_config policy config_map
        (lib.unmarshal_spec (text_of (get config_yaml config_map.entries)))

  -- `removeMigConfigMapData`
  unfoldable pub remove_mig_config_map_data : String → GpuNodePolicy F → Eff S Error
  unfolding revert_mig_config
  remove_mig_config_map_data namespace policy = do
    answer ← call (
        client.get_config_map
          (record { namespace = namespace; name = mig_parted_default_config_map_name }))
    revert_mig_config policy answer
