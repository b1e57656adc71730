-- ===== src/Gpu/ConfigMaps.antt =====
-- The ConfigMap of the device plugin: addDevicePluginConfigMapData, removeDevicePluginConfigMapData
-- and the conversions of internal/controller/gpunodepolicy_controller.go.
pub mod Mig
pub mod Laws
pub mod Total
pub mod Kept
pub mod Replaced
pub mod Again
use mathlib.Core.Bool.{decide}
use accelerator_config_manag.Prelude.{String, ◌<>◌, Bool, true, false, not, ◌&&◌, ◌||◌, ◌==◌}
use accelerator_config_manag.Prelude.{Option, none, some, List, [], ◌∷◌, if◌then◌else◌, is_some}
use accelerator_config_manag.Prelude.GoMap.{GoMap, get, assign, remove, entries}
use accelerator_config_manag.Prelude.Eff.{Eff, pure, lift, call, ◌>>=◌}
use accelerator_config_manag.Api.Foreign.{Foreign}
use accelerator_config_manag.Api.Meta.{
  ConfigMap, NamespacedName, Error, GoError, Fallible, done, failed, wrap,
}
use accelerator_config_manag.Api.Config.{CommandLineFlags, Config, Config-discrete}
use accelerator_config_manag.Api.Gpu.{MigConfigSpec, TimeSlicingConfigSpec, GpuNodePolicy}
use accelerator_config_manag.Api.Gpu.DeviceMode
use accelerator_config_manag.Labels.{text_of}
use accelerator_config_manag.Common.Text.{find_prefix_key, compute_hash}
use accelerator_config_manag.Gpu.Names.{device_plugin_default_config_map_name}
use accelerator_config_manag.Gpu.Controls.{GpuModeManager}
use accelerator_config_manag.Gpu.External.{Library, GpuClient}

-- `len(config.ConfigSlice) == 0`
abbrev pub is_empty {ℓ} : {A : Type ℓ} → List A → Bool
is_empty [] = true
is_empty (x ∷ xs) = false

-- The prefix of a policy's configurations.
abbrev pub config_prefix : String → String
config_prefix managed_by = managed_by <> "-"

-- `if err != nil { return fmt.Errorf(…) }; return nil`
abbrev pub wrapped : String → Error → Error
wrapped text none = none
wrapped text (some e) = some (wrap text e)

module _ {F : Foreign} where
  -- `isMigNoneStrategy`
  unfoldable pub is_mig_none_strategy : Option (MigConfigSpec F) → Bool
  is_mig_none_strategy none = true
  is_mig_none_strategy (some config) = is_empty config.config_slice || config.strategy == ""

  abbrev no_flags : CommandLineFlags F
  no_flags = record {
    mig_strategy = none;
    fail_on_init_error = none;
    mps_root = none;
    nvidia_driver_root = none;
    gds_enabled = none;
    mofed_enabled = none;
    use_node_feature_api = none;
    plugin = none;
    gfd = none;
  }

  abbrev pub patched :
      GpuModeManager F → GpuModeManager F → String → Error → GpuModeManager F × Error
  patched failure success text none = (success, none)
  patched failure success text (some e) = (failure, some (wrap text e))

  module _ (lib : Library F) where
    -- `setMigStrategy`
    unfoldable pub set_mig_strategy : Option (MigConfigSpec F) → String
    unfolding is_mig_none_strategy
    set_mig_strategy none = lib.mig_strategy_none
    set_mig_strategy (some config) =
        if is_mig_none_strategy (some config) then lib.mig_strategy_none else config.strategy

    -- `convertSpecToDevicePluginConfig` into `&dpv1.Config{}`.
    unfoldable pub convert_spec_to_device_plugin_config :
        Option (TimeSlicingConfigSpec F) → Config F
    convert_spec_to_device_plugin_config none = record {
      version = lib.version;
      flags = no_flags;
      sharing = none;
    }
    convert_spec_to_device_plugin_config (some spec) = record {
      version = lib.version;
      flags = no_flags;
      sharing = some (record {
        time_slicing = record {
          rename_by_default = spec.rename_by_default;
          fail_requests_greater_than_one = spec.fail_requests_greater_than_one;
          resources = spec.resources;
        };
        mps = none;
      });
    }

    -- The configuration that the policy asks for.
    unfoldable pub device_plugin_config : GpuModeManager F → Config F
    unfolding convert_spec_to_device_plugin_config set_mig_strategy
    device_plugin_config m =
        let config = convert_spec_to_device_plugin_config m.instance_.spec.time_slicing_config in
        let strategy = set_mig_strategy m.instance_.spec.mig_config in
        if m.mode == DeviceMode.mig
        then record config {
          flags = record config.flags { mig_strategy = some strategy };
          sharing = if strategy == lib.mig_strategy_single then none else config.sharing;
        }
        else config

module _ {F : Foreign} {S : Type 0} (lib : Library F) (client : GpuClient F S) where
  -- From `delete(dpConfigMap.Data, …)` on, for the marshalled configuration.
  unfoldable pub write_device_plugin_config :
      ConfigMap → GpuModeManager F → String × Error → Eff S (GpuModeManager F × Error)
  write_device_plugin_config origin m (raw, some e) = pure (m, some (wrap "marshal error: " e))
  write_device_plugin_config origin m (raw, none) = do
    let name = m.managed_by <> ("-" <> compute_hash lib.md5_sum raw)
    let m' = record m { device_plugin_config_name = name }
    entries' ← lift (assign name raw (remove m.device_plugin_config_name origin.entries))
    err ← call (client.patch_config_map origin (record origin { entries = entries' }))
    pure (
        patched m' (record m' { device_plugin_config_updated = true })
          "fail to update device plugin ConfigMap, err " err)

  unfoldable pub change_device_plugin_config :
      GpuModeManager F → ConfigMap → Eff S (GpuModeManager F × Error)
  unfolding write_device_plugin_config
  change_device_plugin_config m origin =
      let name = find_prefix_key (entries origin.entries) (config_prefix m.managed_by) in
      let m' = record m { device_plugin_config_name = name } in
      let raw = get name origin.entries in
      if not (is_some raw)
        && not (is_some m.instance_.spec.time_slicing_config)
        && is_mig_none_strategy m.instance_.spec.mig_config
      then pure (m', none)
      else if decide
          (Config-discrete F (lib.unmarshal_config (text_of raw)).0 (device_plugin_config lib m))
      then pure (m', none)
      else write_device_plugin_config origin m' (lib.marshal_config (device_plugin_config lib m))

  abbrev pub with_device_plugin_config_map :
      GpuModeManager F → Fallible ConfigMap → Eff S (GpuModeManager F × Error)
  with_device_plugin_config_map m (done origin) = change_device_plugin_config m origin
  with_device_plugin_config_map m (failed e) =
      pure (m, some (wrap "unable to get device plugin ConfigMap, err " e))

  -- `addDevicePluginConfigMapData` in the controller's namespace.
  unfoldable pub add_device_plugin_config_map_data :
      String → GpuModeManager F → Eff S (GpuModeManager F × Error)
  unfolding change_device_plugin_config
  add_device_plugin_config_map_data namespace m = do
    answer ← call (
        client.get_config_map
          (record { namespace = namespace; name = device_plugin_default_config_map_name }))
    with_device_plugin_config_map m answer

module _ {F : Foreign} {S : Type 0} (client : GpuClient F S) where
  unfoldable pub drop_device_plugin_config : GpuNodePolicy F → Fallible ConfigMap → Eff S Error
  drop_device_plugin_config policy (failed e) =
      pure (
        if e.is_not_found
        then none
        else some (wrap "unable to get device plugin ConfigMap, err " e))
  drop_device_plugin_config policy (done config_map) =
      let name =
        find_prefix_key (entries config_map.entries) (config_prefix policy.metadata.name) in
      if is_some (get name config_map.entries)
      then (do
        err ← call (
            client.patch_config_map config_map
              (record config_map { entries = remove name config_map.entries }))
        pure (wrapped "fail to revert device plugin ConfigMap, err " err))
      else pure none

  -- `removeDevicePluginConfigMapData`
  unfoldable pub remove_device_plugin_config_map_data : String → GpuNodePolicy F → Eff S Error
  unfolding drop_device_plugin_config
  remove_device_plugin_config_map_data namespace policy = do
    answer ← call (
        client.get_config_map
          (record { namespace = namespace; name = device_plugin_default_config_map_name }))
    drop_device_plugin_config policy answer
