-- ===== src/Gpu/Status.antt =====
-- InitGpuNodePolicyStatus and UpdateGpuNodePolicyStatus of
-- internal/controller/gpunodepolicy_controller.go. A pointer to a bool is an `Option Bool`.
pub mod Laws
use accelerator_config_manag.Prelude.{String, Bool, true, false, Option, none, some, List, [], ◌∷◌}
use accelerator_config_manag.Prelude.{◌==◌, if◌then◌else◌}
use accelerator_config_manag.Prelude.GoMap.{GoMap, nil_map, made, get, assign}
use accelerator_config_manag.Prelude.Run.{Run, ok, ◌>>=◌}
use accelerator_config_manag.Api.Foreign.{Foreign}
use accelerator_config_manag.Api.Meta.{Node}
use accelerator_config_manag.Api.Gpu.{
  TimeSlicingModeStatus, MigModeStatus, GpuNodeStatus, GpuNodePolicyStatus, GpuNodePolicy,
}
use accelerator_config_manag.Api.Gpu.DeviceMode
use accelerator_config_manag.Gpu.Controls.{GpuModeManager}

-- `esv1.GpuNodeStatus{}`
abbrev pub no_status : GpuNodeStatus
no_status = record {
  time_slicing_mode = none;
  mig_mode = none;
  default_mode = none;
  pass_through_mode = none;
  vcuda_mode = none;
}

-- `if need != nil { sync = *need }`
abbrev pub synced : Option Bool → Bool → Bool
synced none old = old
synced (some need) old = need

abbrev pub time_slicing_status : Option Bool → Option TimeSlicingModeStatus → TimeSlicingModeStatus
time_slicing_status need none = record {
  enabled = true;
  device_plugin = record { sync = synced need false };
}
time_slicing_status need (some s) = record s {
  device_plugin = record { sync = synced need s.device_plugin.sync };
}

abbrev pub mig_status : Option Bool → Option Bool → Option MigModeStatus → MigModeStatus
mig_status need need_mig none = record {
  enabled = true;
  device_plugin = record { sync = synced need false };
  mig_parted = record { sync = synced need_mig false };
}
mig_status need need_mig (some s) = record s {
  device_plugin = record { sync = synced need s.device_plugin.sync };
  mig_parted = record { sync = synced need_mig s.mig_parted.sync };
}

-- The switch on `instance.Spec.Mode`.
unfoldable pub mode_status : String → Option Bool → Option Bool → GpuNodeStatus → GpuNodeStatus
mode_status mode need_dp need_mig status =
    if mode == DeviceMode.time_slicing
    then record no_status {
      time_slicing_mode = some (time_slicing_status need_dp status.time_slicing_mode);
    }
    else if mode == DeviceMode.mig
    then record no_status { mig_mode = some (mig_status need_dp need_mig status.mig_mode) }
    else if mode == DeviceMode.default
    then record no_status {
      default_mode = elim status.default_mode [
        | none ↦ some (record { enabled = true })
        | some s ↦ some s
      ];
    }
    else if mode == DeviceMode.vcuda
    then record no_status {
      vcuda_mode = elim status.vcuda_mode [
        | none ↦ some (record { enabled = true })
        | some s ↦ some s
      ];
    }
    else if mode == DeviceMode.pass_through
    then record no_status {
      pass_through_mode = elim status.pass_through_mode [
        | none ↦ some (record { enabled = true })
        | some s ↦ some s
      ];
    }
    else status

-- `status, ok := instance.Status.Nodes[node]; if !ok { status = esv1.GpuNodeStatus{} }`
abbrev pub status_or_new : Option GpuNodeStatus → GpuNodeStatus
status_or_new none = no_status
status_or_new (some s) = s

-- `if manager.instance.Status.Nodes == nil { … = make(…) }`
abbrev pub make_nodes : GoMap GpuNodeStatus → GoMap GpuNodeStatus
make_nodes nil_map = made []
make_nodes (made d) = made d

-- `if updated { need = &updated }`
abbrev pub need_sync : Bool → Option Bool
need_sync updated = if updated then some updated else none

module _ {F : Foreign} where
  unfoldable pub update_gpu_node_policy_status :
      GpuNodePolicy F → String → Option Bool → Option Bool → Run (GpuNodePolicy F)
  unfolding mode_status
  update_gpu_node_policy_status policy node need_dp need_mig = do
    nodes ←
        assign node
          (mode_status policy.spec.mode need_dp need_mig
            (status_or_new (get node policy.status.nodes)))
          policy.status.nodes
    ok (record policy { status = record { nodes = nodes } })

  unfoldable pub update_statuses :
      GpuNodePolicy F → List Node → Option Bool → Option Bool → Run (GpuNodePolicy F)
  update_statuses policy [] need_dp need_mig = ok policy
  update_statuses policy (node ∷ nodes) need_dp need_mig = do
    policy' ← update_gpu_node_policy_status policy node.name need_dp need_mig
    update_statuses policy' nodes need_dp need_mig

  -- The manager whose instance has the new status.
  unfoldable pub init_gpu_node_policy_status : GpuModeManager F → List Node → Run (GpuModeManager F)
  unfolding update_statuses update_gpu_node_policy_status
  init_gpu_node_policy_status m nodes = do
    let p = m.instance_
    policy ←
        update_statuses (record p { status = record { nodes = make_nodes p.status.nodes } }) nodes
          (need_sync m.device_plugin_config_updated) (need_sync m.mig_config_updated)
    ok (record m { instance_ = policy })
