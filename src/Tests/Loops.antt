-- ===== src/Tests/Loops.antt =====
-- UpdateNodes and ReleaseNodes on two nodes, of which the server keeps the labels.
use accelerator_config_manag.Prelude.{◌==◌, if◌then◌else◌, true, List, [], ◌∷◌, ◌≡◌, refl}
use accelerator_config_manag.Prelude.Dict.{lookup, insert, erase}
use accelerator_config_manag.Prelude.GoMap.{made}
use accelerator_config_manag.Prelude.Run.{Run, ok, panic}
use accelerator_config_manag.Api.Meta.{Node, Error}
use accelerator_config_manag.Common.Client.{joined_error}
use accelerator_config_manag.Common.Client.Labelled.{AllHave, OthersKept}
use accelerator_config_manag.Common.Filter.Laws.{named}
use accelerator_config_manag.Labels.{
  ensure_row, ensure_label, ensure_config_label, drop_label, drop_row,
}
use accelerator_config_manag.Gpu.Controls.{
  GpuModeManager, update_gpu_state_labels, set_workload_config,
}
use accelerator_config_manag.Gpu.Controls.Adopted.{IsWorkload, container}
use accelerator_config_manag.Gpu.Controls.Update as GpuUpdate
use accelerator_config_manag.Gpu.Status.{update_gpu_node_policy_status}
use accelerator_config_manag.Gpu.Nodes as GpuNodes
use accelerator_config_manag.Gpu.Nodes.Update.{update_nodes_lem}
use accelerator_config_manag.Npu.Controls.{
  NpuModeManager, update_npu_state_labels, remove_all_npu_mode_labels,
}
use accelerator_config_manag.Npu.Controls.Update as NpuUpdate
use accelerator_config_manag.Npu.Controls.Released.{released_npu_label}
use accelerator_config_manag.Npu.Status.{update_npu_node_policy_status}
use accelerator_config_manag.Npu.Nodes as NpuNodes
use accelerator_config_manag.Npu.Nodes.Update.{npu_update_nodes_lem}
use accelerator_config_manag.Npu.Nodes.Unrestored.{unrestored, is_some_node}
use accelerator_config_manag.Npu.Nodes.Release.{npu_release_nodes_lem}
use accelerator_config_manag.Tests.World.{
  Cluster, labels_at, node_at, nodes_client, nodes_client-IsLabelled,
}
use accelerator_config_manag.Tests.Resources.{
  texts, gpu_policy, gpu_manager, npu_policy, npu_manager,
}

-- "n1" is managed and restored, and the other nodes are only managed.
abbrev managed : Cluster
managed name =
    if name == "n1"
    then ("ecns.easystack.io/npu.deploy.managed-by", "a")
      ∷ ("ecns.easystack.io/npu.config.state", "restored")
      ∷ []
    else ("ecns.easystack.io/npu.deploy.managed-by", "a") ∷ ("kubernetes.io/hostname", name) ∷ []

abbrev both : List Node
both = node_at "n1" managed ∷ node_at "n2" managed ∷ []

-- After InitGpuNodePolicyStatus has made the map of the statuses.
abbrev gpu_ready : GpuModeManager texts
gpu_ready = record gpu_manager {
  instance_ = record (gpu_policy "time-slicing") { status = record { nodes = made [] } };
}

abbrev gpu_after : Run (GpuModeManager texts × Error) × Cluster
gpu_after = GpuNodes.update_nodes nodes_client gpu_ready both managed

abbrev gpu_manager_of : Run (GpuModeManager texts × Error) × Cluster → GpuModeManager texts
gpu_manager_of (ok (m, err), s) = m
gpu_manager_of (panic, s) = gpu_manager

workload : IsWorkload gpu_ready.workload_config_name
unfolding set_workload_config
workload = container refl

update_nodes_lem_example :
    AllHave labels_at (GpuUpdate.wanted gpu_ready workload) gpu_after.1 both
    × OthersKept labels_at both managed gpu_after.1
unfolding named GpuNodes.update_nodes GpuNodes.update_loop GpuNodes.update_node
    update_gpu_state_labels set_workload_config ensure_row ensure_label ensure_config_label
    drop_label lookup insert update_gpu_node_policy_status joined_error
update_nodes_lem_example =
    update_nodes_lem nodes_client labels_at nodes_client-IsLabelled gpu_ready
      (gpu_manager_of gpu_after) workload both managed gpu_after.1 (refl, (refl, tt))
      ((λ k. refl), ((λ k. refl), tt)) refl

abbrev npu_ready : NpuModeManager
npu_ready = record npu_manager {
  instance_ = record npu_policy { status = record { nodes = made [] } };
}

abbrev npu_after : Run (NpuModeManager × Error) × Cluster
npu_after = NpuNodes.update_nodes nodes_client npu_ready both managed

abbrev npu_manager_of : Run (NpuModeManager × Error) × Cluster → NpuModeManager
npu_manager_of (ok (m, err), s) = m
npu_manager_of (panic, s) = npu_manager

npu_update_nodes_lem_example :
    AllHave labels_at (NpuUpdate.wanted npu_ready) npu_after.1 both
    × OthersKept labels_at both managed npu_after.1
unfolding named NpuNodes.update_nodes NpuNodes.update_loop NpuNodes.update_node
    update_npu_state_labels ensure_row ensure_label drop_label lookup insert erase
    update_npu_node_policy_status joined_error
npu_update_nodes_lem_example =
    npu_update_nodes_lem nodes_client labels_at nodes_client-IsLabelled npu_ready
      (npu_manager_of npu_after) both managed npu_after.1 (refl, (refl, tt))
      ((λ k. refl), ((λ k. refl), tt)) refl

abbrev released : Cluster
released = (NpuNodes.release_nodes nodes_client both managed).1

npu_release_nodes_lem_example :
    (true ≡ is_some_node (unrestored both))
    × AllHave labels_at released_npu_label released (unrestored both)
    × OthersKept labels_at (unrestored both) managed released
unfolding named NpuNodes.release_nodes NpuNodes.release_loop NpuNodes.release_node
    remove_all_npu_mode_labels drop_label drop_row lookup erase joined_error
npu_release_nodes_lem_example =
    npu_release_nodes_lem nodes_client labels_at nodes_client-IsLabelled both true managed released
      (refl, (refl, tt)) ((λ k. refl), ((λ k. refl), tt)) refl
