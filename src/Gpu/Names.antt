-- ===== src/Gpu/Names.antt =====
-- The constants of internal/controller/gpunodepolicy_controller.go, and its table of labels.
use accelerator_config_manag.Prelude.{String, [], ◌∷◌}
use accelerator_config_manag.Labels.{Table}

abbrev pub device_plugin_default_config_label : String
device_plugin_default_config_label = "nvidia.com/device-plugin.config"

abbrev pub device_plugin_config_label_value_default : String
device_plugin_config_label_value_default = "default"

abbrev pub mig_config_label : String
mig_config_label = "nvidia.com/mig.config"

abbrev pub mig_config_label_value_all_disabled : String
mig_config_label_value_all_disabled = "all-disabled"

abbrev pub mig_config_state_label : String
mig_config_state_label = "nvidia.com/mig.config.state"

abbrev pub mig_config_state_label_value_success : String
mig_config_state_label_value_success = "success"

abbrev pub mode_managed_by_label : String
mode_managed_by_label = "ecns.easystack.io/gpu.deploy.managed-by"

-- `RELEASEFINALIZERNAME`
abbrev pub release_finalizer_name : String
release_finalizer_name = "release.finalizers.ecns.easystack.io"

abbrev pub common_operands_label_key : String
common_operands_label_key = "nvidia.com/gpu.deploy.operands"

abbrev pub gpu_workload_config_label_key : String
gpu_workload_config_label_key = "nvidia.com/gpu.workload.config"

abbrev pub gpu_workload_config_none : String
gpu_workload_config_none = "none"

abbrev pub gpu_workload_config_container : String
gpu_workload_config_container = "container"

abbrev pub gpu_workload_config_vm_passthrough : String
gpu_workload_config_vm_passthrough = "vm-passthrough"

abbrev pub gpu_workload_config_vcuda : String
gpu_workload_config_vcuda = "vcuda"

abbrev pub mig_manager_label_key : String
mig_manager_label_key = "nvidia.com/gpu.deploy.mig-manager"

abbrev pub device_plugin_default_config_map_name : String
device_plugin_default_config_map_name = "nvidia-plugin-configs"

abbrev pub mig_parted_default_config_map_name : String
mig_parted_default_config_map_name = "default-mig-parted-config"

-- `gpuModeLabels`. Go visits its rows in no fixed order; the source's order stands for any, since
-- the rows' effects on the labels commute.
abbrev pub gpu_mode_labels : Table
gpu_mode_labels =
    (gpu_workload_config_none, (common_operands_label_key, "false") ∷ [])
    ∷ (
      gpu_workload_config_container,
      (gpu_workload_config_label_key, gpu_workload_config_container) ∷ [],
    )
    ∷ (
      gpu_workload_config_vm_passthrough,
      (gpu_workload_config_label_key, gpu_workload_config_vm_passthrough) ∷ [],
    )
    ∷ (gpu_workload_config_vcuda, (gpu_workload_config_label_key, gpu_workload_config_vcuda) ∷ [])
    ∷ []
