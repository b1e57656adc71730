-- ===== src/Npu/Status.antt =====
-- InitNpuNodePolicyStatus and UpdateNpuNodePolicyStatus of
-- internal/controller/npunodepolicy_controller.go.
pub mod Laws
use accelerator_config_manag.Prelude.{String, Bool, true, false, Option, none, some, List, [], ◌∷◌}
use accelerator_config_manag.Prelude.{◌==◌, ◌||◌, if◌then◌else◌}
use accelerator_config_manag.Prelude.GoMap.{GoMap, nil_map, made, get, assign}
use accelerator_config_manag.Prelude.Run.{Run, ok, ◌>>=◌}
use accelerator_config_manag.Api.Meta.{Node}
use accelerator_config_manag.Api.Npu.{NpuNodeStatus, no_status, NpuNodePolicy}
use accelerator_config_manag.Api.Npu.SyncStatus

-- `s, ok := instance.Status.Nodes[node]; if !ok { s = esv1.NpuNodeStatus{} }`
abbrev pub status_or_new : Option NpuNodeStatus → NpuNodeStatus
status_or_new none = no_status
status_or_new (some s) = s

-- `if force || s.SyncStatus == "" { s.SyncStatus = status }`
unfoldable pub sync_status : String → Bool → NpuNodeStatus → NpuNodeStatus
sync_status status force s =
    if force || s.sync_status == "" then record s { sync_status = status } else s

unfoldable pub update_npu_node_policy_status :
    NpuNodePolicy → String → String → Bool → Run NpuNodePolicy
unfolding sync_status
update_npu_node_policy_status policy node status force = do
  nodes ←
      assign node (sync_status status force (status_or_new (get node policy.status.nodes)))
        policy.status.nodes
  ok (record policy { status = record { nodes = nodes } })

unfoldable pub update_statuses : NpuNodePolicy → List Node → String → Bool → Run NpuNodePolicy
update_statuses policy [] status force = ok policy
update_statuses policy (node ∷ nodes) status force = do
  policy' ← update_npu_node_policy_status policy node.name status force
  update_statuses policy' nodes status force

-- `if instance.Status.Nodes == nil { … = make(…) }`
abbrev pub make_nodes : GoMap NpuNodeStatus → GoMap NpuNodeStatus
make_nodes nil_map = made []
make_nodes (made d) = made d

unfoldable pub init_npu_node_policy_status : NpuNodePolicy → List Node → Run NpuNodePolicy
unfolding update_statuses update_npu_node_policy_status
init_npu_node_policy_status policy nodes =
    update_statuses (record policy { status = record { nodes = make_nodes policy.status.nodes } })
      nodes SyncStatus.initializing false
