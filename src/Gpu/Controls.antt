-- ===== src/Gpu/Controls.antt =====
-- internal/controller/gpu_controls.go: the manager of one policy's mode, and the labels that it sets
-- on nodes. The logger is not modelled.
pub mod Adopted
pub mod Update
pub mod Released
use accelerator_config_manag.Prelude.{String, Bool, true, false, ◌||◌, [], ◌∷◌, some, ◌==◌}
use accelerator_config_manag.Prelude.{Option, none, if◌then◌else◌}
use accelerator_config_manag.Prelude.Dict.{lookup}
use accelerator_config_manag.Prelude.GoMap.{get}
use accelerator_config_manag.Prelude.Run.{Run, ok, panic, ◌>>=◌}
use accelerator_config_manag.Api.Foreign.{Foreign}
use accelerator_config_manag.Api.Gpu.{GpuNodePolicy, GpuNodeStatus}
use accelerator_config_manag.Api.Gpu.DeviceMode
use accelerator_config_manag.Labels.{
  Labels, Change, Table, table_row, ensure_row, ensure_label, ensure_config_label, drop_label,
  drop_row, drop_other_modes,
}
use accelerator_config_manag.Gpu.Names.{
  device_plugin_default_config_label, device_plugin_config_label_value_default, mig_config_label,
  mig_config_label_value_all_disabled, mode_managed_by_label, common_operands_label_key,
  gpu_workload_config_none, gpu_workload_config_container, gpu_workload_config_vm_passthrough,
  gpu_workload_config_vcuda, gpu_mode_labels,
}

-- `setWorkloadConfig`
unfoldable pub set_workload_config : String → String
set_workload_config mode =
    if mode == DeviceMode.vcuda
    then gpu_workload_config_vcuda
    else if mode == DeviceMode.default
    then gpu_workload_config_container
    else if mode == DeviceMode.time_slicing
    then gpu_workload_config_container
    else if mode == DeviceMode.mig
    then gpu_workload_config_container
    else if mode == DeviceMode.pass_through
    then gpu_workload_config_vm_passthrough
    else gpu_workload_config_none

pub record GpuModeManager (F : Foreign) : Type 0 where
  pub instance_ : GpuNodePolicy F
  pub mode : String
  pub workload_config_name : String
  pub device_plugin_config_name : String
  pub device_plugin_config_updated : Bool
  pub mig_config_name : String
  pub mig_config_updated : Bool
  pub managed_by : String

module _ {F : Foreign} where
  unfoldable pub new_gpu_mode_manager : GpuNodePolicy F → GpuModeManager F
  unfolding set_workload_config
  new_gpu_mode_manager policy = record {
    instance_ = policy;
    mode = policy.spec.mode;
    workload_config_name = set_workload_config policy.spec.mode;
    device_plugin_config_name =
        if policy.spec.mode == DeviceMode.default
        then device_plugin_config_label_value_default
        else "";
    device_plugin_config_updated = false;
    mig_config_name =
        if policy.spec.mode == DeviceMode.mig then "" else mig_config_label_value_all_disabled;
    mig_config_updated = false;
    managed_by = policy.metadata.name;
  }

  unfoldable pub remove_gpu_mode_labels : GpuModeManager F → Labels → Change
  unfolding drop_other_modes
  remove_gpu_mode_labels m labels =
      drop_other_modes m.workload_config_name (table_row m.workload_config_name gpu_mode_labels)
        gpu_mode_labels (labels, false)

  unfoldable pub add_gpu_mode_labels : GpuModeManager F → Labels → Run Change
  add_gpu_mode_labels m labels = do
    c1 ← ensure_row (table_row m.workload_config_name gpu_mode_labels) (labels, false)
    c2 ← ensure_label mode_managed_by_label m.managed_by c1
    c3 ← ensure_config_label device_plugin_default_config_label m.device_plugin_config_name c2
    ensure_config_label mig_config_label m.mig_config_name c3

  unfoldable pub update_gpu_state_labels : GpuModeManager F → Labels → Run Change
  unfolding remove_gpu_mode_labels add_gpu_mode_labels
  update_gpu_state_labels m labels = do
    let (labels', removed) = remove_gpu_mode_labels m labels
    (labels'', added) ← add_gpu_mode_labels m labels'
    ok (labels'', removed || added)

-- The rows of `removeAllGPUModeLabels`: `if k == gpuWorkloadConfigNone { continue }`.
unfoldable pub drop_mode_rows : Table → Change → Change
drop_mode_rows [] c = c
drop_mode_rows ((k, row) ∷ table) c =
    drop_mode_rows table (if k == gpu_workload_config_none then c else drop_row row c)

unfoldable pub remove_all_gpu_mode_labels : Labels → Run Change
unfolding drop_mode_rows
remove_all_gpu_mode_labels labels =
    let c1 = drop_mode_rows gpu_mode_labels (labels, false) in
    let c2 = drop_label mode_managed_by_label c1 in
    let c3 = drop_label device_plugin_default_config_label c2 in
    let c4 = drop_label mig_config_label c3 in ensure_label common_operands_label_key "false" c4

-- `status.TimeSlicingMode.DevicePlugin.Sync` and its like: a nil pointer on the way is a panic.
device_plugin_sync : String → GpuNodeStatus → Run Bool
device_plugin_sync mode status =
    if mode == DeviceMode.time_slicing
    then (elim status.time_slicing_mode [ none ↦ panic | some s ↦ ok s.device_plugin.sync ])
    else if mode == DeviceMode.mig
    then (elim status.mig_mode [ none ↦ panic | some s ↦ ok s.device_plugin.sync ])
    else ok false

mig_parted_sync : String → GpuNodeStatus → Run Bool
mig_parted_sync mode status =
    if mode == DeviceMode.mig
    then (elim status.mig_mode [ none ↦ panic | some s ↦ ok s.mig_parted.sync ])
    else ok false

module _ {F : Foreign} where
  unfoldable pub is_device_plugin_config_updated : GpuModeManager F → String → Run Bool
  unfolding device_plugin_sync
  is_device_plugin_config_updated m node = elim (get node m.instance_.status.nodes) [
    | none ↦ ok false
    | some status ↦ device_plugin_sync m.instance_.spec.mode status
  ]

  unfoldable pub is_mig_config_updated : GpuModeManager F → String → Run Bool
  unfolding mig_parted_sync
  is_mig_config_updated m node = elim (get node m.instance_.status.nodes) [
    | none ↦ ok false
    | some status ↦ mig_parted_sync m.instance_.spec.mode status
  ]
