-- ===== src/Npu/Names.antt =====
-- The constants of internal/controller/npunodepolicy_controller.go, and its table of labels.
use accelerator_config_manag.Prelude.{String, [], ◌∷◌}
use accelerator_config_manag.Api.Npu.DeviceMode
use accelerator_config_manag.Labels.{Table}

abbrev pub npu_mode_managed_by_label : String
npu_mode_managed_by_label = "ecns.easystack.io/npu.deploy.managed-by"

abbrev pub npu_config_state_label : String
npu_config_state_label = "ecns.easystack.io/npu.config.state"

abbrev pub npu_workload_config_label_key : String
npu_workload_config_label_key = "ecns.easystack.io/npu.workload.config"

abbrev pub npu_worker_selector_label_key : String
npu_worker_selector_label_key = "workerselector"

abbrev pub npu_config_state_label_value_success : String
npu_config_state_label_value_success = "success"

abbrev pub npu_config_state_label_value_in_progress : String
npu_config_state_label_value_in_progress = "in-progress"

abbrev pub npu_config_state_label_value_restored : String
npu_config_state_label_value_restored = "restored"

abbrev pub npu_worker_selector_dls : String
npu_worker_selector_dls = "dls-worker-node"

-- `npuModeLabels`, its rows and their labels in the source's order.
abbrev pub npu_mode_labels : Table
npu_mode_labels =
    (
      DeviceMode.container,
      (npu_workload_config_label_key, DeviceMode.container)
          ∷ (npu_worker_selector_label_key, npu_worker_selector_dls)
          ∷ [],
    )
    ∷ (
      DeviceMode.virtualization,
      (npu_workload_config_label_key, DeviceMode.virtualization)
          ∷ (npu_worker_selector_label_key, npu_worker_selector_dls)
          ∷ [],
    )
    ∷ []
