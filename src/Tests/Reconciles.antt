-- ===== src/Tests/Reconciles.antt =====
-- Reconciliations on a cluster of one node, and the ConfigMaps of its policies.
use accelerator_config_manag.Prelude.{
  String, true, false, not, ◌&&◌, ◌==◌, if◌then◌else◌, ◌||◌, none, some, List, [], ◌∷◌, ◌≡◌, refl,
}
use accelerator_config_manag.Prelude.Dict.{Dict, lookup, insert, erase}
use accelerator_config_manag.Prelude.GoMap.{made, get}
use accelerator_config_manag.Prelude.Run.{Run, ok, panic}
use accelerator_config_manag.Api.Meta.{Node, Fallible, done}
use accelerator_config_manag.Common.Filter.{filter_nodes}
use accelerator_config_manag.Common.Outcome.{Outcome, finish}
use accelerator_config_manag.Gpu.Controls.{
  GpuModeManager, update_gpu_state_labels, set_workload_config, remove_all_gpu_mode_labels,
}
use accelerator_config_manag.Gpu.Status.{init_gpu_node_policy_status}
use accelerator_config_manag.Gpu.Nodes.{
  adopt_nodes, adopt_loop, adopt_node, update_nodes, update_loop, release_nodes, release_loop,
  release_node,
}
use accelerator_config_manag.Npu.Nodes as NpuNodes
use accelerator_config_manag.Npu.Status as NpuStatus
use accelerator_config_manag.Npu.Controls.{update_npu_state_labels}
use accelerator_config_manag.Labels.{
  ensure_row, ensure_label, ensure_config_label, drop_label, drop_row,
}
use accelerator_config_manag.Common.DeepEqual.{deep_equal}
use accelerator_config_manag.Common.Client.{joined_error}
use accelerator_config_manag.Common.Text.{string_in_array, find_prefix_key, remove_string}
use accelerator_config_manag.Gpu.Nodes.Laws.{all_mig_disabled}
use accelerator_config_manag.Gpu.ConfigMaps.{remove_device_plugin_config_map_data}
use accelerator_config_manag.Gpu.ConfigMaps.Mig.{
  add_mig_config_map_data, remove_mig_config_map_data,
}
use accelerator_config_manag.Gpu.ConfigMaps.Laws.{
  add_mig_config_map_data-panic, remove_device_plugin_config_map_data-other,
}
use accelerator_config_manag.Gpu.Reconcile.{
  setup_nodes, write_status, finalize, drop_finalizer, managed_selector,
}
use accelerator_config_manag.Gpu.Reconcile.Laws.{setup_nodes-finish, finalize-finish}
use accelerator_config_manag.Npu.External.{NpuClient}
use accelerator_config_manag.Npu.Reconcile
use accelerator_config_manag.Npu.Reconcile.Laws.{npu_setup_nodes-finish}
use accelerator_config_manag.Npu.Daemon.{reconcile}
use accelerator_config_manag.Npu.Daemon.Laws.{reconcile-state}
use accelerator_config_manag.Npu.Daemon.Laws.Restored.{
  ended, reconcile-restored, reconcile-other_policy,
}
use accelerator_config_manag.Tests.World.{
  patch, Cluster, labels_at, node_at, nodes_client, nodes_client-IsLabelled,
}
use accelerator_config_manag.Tests.Clients.{
  config_map, gpu_client, npu_client, mig_spec, library, req, daemon, bare, daemon_of,
}
use accelerator_config_manag.Tests.Resources.{texts, gpu_policy, gpu_manager, npu_policy}

-- The node is managed by the policy `a`, and the daemon has configured it before.
abbrev configured : Dict String
configured =
    ("ecns.easystack.io/npu.deploy.managed-by", "a")
    ∷ ("ecns.easystack.io/npu.config.state", "success")
    ∷ []

abbrev cluster : Cluster
cluster name = configured

abbrev afterwards : Cluster
afterwards = (reconcile npu_client daemon req cluster).1

reconcile-state_example :
    get "ecns.easystack.io/npu.config.state" (labels_at "n1" afterwards) ≡ some "in-progress"
unfolding reconcile lookup insert patch
reconcile-state_example =
    reconcile-state npu_client labels_at nodes_client-IsLabelled daemon req npu_policy "n1"
      configured cluster cluster cluster afterwards daemon refl refl (λ k. refl) refl refl refl

add_mig_config_map_data-panic_example :
    add_mig_config_map_data library gpu_client "default" gpu_manager cluster ≡ (panic, cluster)
unfolding lookup
add_mig_config_map_data-panic_example =
    add_mig_config_map_data-panic library gpu_client "default" "a-1f2e3d" gpu_manager config_map
      mig_spec cluster cluster refl refl refl refl refl

remove_device_plugin_config_map_data-other_example :
    (remove_device_plugin_config_map_data gpu_client "default" (gpu_policy "time-slicing") cluster
      ≡ (ok none, cluster))
    × (lookup {V = String} "a-b-1f2e3d" (erase {V = String} "a-b-1f2e3d" []) ≡ none)
remove_device_plugin_config_map_data-other_example =
    remove_device_plugin_config_map_data-other gpu_client "default" "b" "1f2e3d" "x"
      "nvidia-plugin-configs" "a-b-1f2e3d" (gpu_policy "time-slicing") [] cluster cluster refl refl

-- Every update of a node fails.
abbrev failing : NpuClient Cluster
failing = record npu_client {
  nodes = record nodes_client {
    update_node = λ node s. (some (record { is_not_found = false; message = "conflict" }), s);
  };
}

abbrev claimed : List Node
claimed = node_at "n1" bare ∷ []

-- What the reconciliation answers, where it does not panic.
abbrev outcome_of : Run Outcome × Cluster → Outcome
outcome_of (ok outcome, s) = outcome
outcome_of (panic, s) = (record { requeue = true; requeue_after = none }, none)

abbrev failed_setup : Run Outcome × Cluster
failed_setup = Reconcile.setup_nodes failing (λ m. m) req npu_policy claimed [] bare

npu_setup_nodes-finish_example : outcome_of failed_setup ≡ finish
unfolding Reconcile.setup_nodes filter_nodes NpuStatus.init_npu_node_policy_status
    NpuNodes.adopt_nodes NpuNodes.adopt_loop insert NpuNodes.adopt_node lookup
    update_npu_state_labels ensure_row ensure_label NpuNodes.update_nodes NpuNodes.update_loop
    NpuNodes.release_nodes NpuNodes.release_loop deep_equal
npu_setup_nodes-finish_example =
    npu_setup_nodes-finish failing (λ m. m) req npu_policy claimed [] bare failed_setup.1
      (outcome_of failed_setup) refl (λ p t. refl) refl

abbrev set_up_cluster : Cluster
set_up_cluster =
    (setup_nodes library gpu_client "default" (λ m. m) req (gpu_policy "time-slicing") gpu_manager
      claimed [] bare).1

setup_nodes-finish_example :
    (m1 : GpuModeManager texts) × (m2 : GpuModeManager texts) × (m3 : GpuModeManager texts)
    × (s1 : Cluster) × (s2 : Cluster) × (s3 : Cluster) × (init_gpu_node_policy_status gpu_manager
          claimed
        ≡ ok m1)
    × (adopt_nodes nodes_client m1 (filter_nodes (λ m. m) claimed []).adopt bare
        ≡ (ok (m2, none), s1))
    × (update_nodes nodes_client m2 (filter_nodes (λ m. m) claimed []).match_ s1
        ≡ (ok (m3, none), s2))
    × (release_nodes nodes_client (filter_nodes (λ m. m) claimed []).release s2 ≡ (ok none, s3))
    × (write_status library gpu_client "default" req
          (gpu_policy "time-slicing")
          m3.instance_
          false
          s3
        ≡ (ok finish, set_up_cluster))
unfolding setup_nodes init_gpu_node_policy_status adopt_nodes adopt_loop filter_nodes insert
    adopt_node lookup update_gpu_state_labels ensure_row set_workload_config ensure_label drop_label
    ensure_config_label update_nodes update_loop release_nodes release_loop deep_equal joined_error
setup_nodes-finish_example =
    setup_nodes-finish library gpu_client "default" (λ m. m) req (gpu_policy "time-slicing")
      gpu_manager claimed [] bare set_up_cluster refl

abbrev finalized : Cluster
finalized = (finalize library gpu_client "default" (gpu_policy "time-slicing") bare).1

finalize-finish_example :
    (nodes : List Node) × (s0 : Cluster) × (s1 : Cluster) × (s2 : Cluster) × (s3 : Cluster)
    × (nodes_client.list_nodes (managed_selector "a") bare ≡ (done nodes, s0))
    × ((not (false) || all_mig_disabled nodes) ≡ true)
    × (release_nodes nodes_client nodes s0 ≡ (ok none, s1))
    × (remove_device_plugin_config_map_data gpu_client "default" (gpu_policy "time-slicing") s1
        ≡ (ok none, s2))
    × (remove_mig_config_map_data library gpu_client "default" (gpu_policy "time-slicing") s2
        ≡ (ok none, s3))
    × (drop_finalizer library gpu_client "default" (gpu_policy "time-slicing") s3
        ≡ (ok finish, finalized))
unfolding finalize string_in_array release_nodes release_loop release_node
    remove_all_gpu_mode_labels drop_label drop_row ensure_label joined_error lookup insert erase
    remove_device_plugin_config_map_data remove_mig_config_map_data find_prefix_key remove_string
finalize-finish_example =
    finalize-finish library gpu_client "default" (gpu_policy "time-slicing") bare finalized refl
      refl

-- A node that is not managed any longer.
abbrev unmanaged : Dict String
unmanaged = ("kubernetes.io/hostname", "n1") ∷ []

abbrev after_restore : Cluster
after_restore = (reconcile npu_client daemon req bare).1

reconcile-restored_example :
    ((daemon_of (reconcile npu_client daemon req bare)).npu_policy ≡ "")
    × (get "ecns.easystack.io/npu.config.state" (labels_at "n1" after_restore) ≡ some "restored")
unfolding reconcile lookup insert patch
reconcile-restored_example =
    reconcile-restored npu_client labels_at nodes_client-IsLabelled daemon req npu_policy "n1"
      unmanaged bare bare bare after_restore (daemon_of (reconcile npu_client daemon req bare)) refl
      refl (λ k. refl) refl refl

-- The node is managed by the policy `b`.
abbrev managed_by_other : Dict String
managed_by_other = ("ecns.easystack.io/npu.deploy.managed-by", "b") ∷ []

abbrev other_cluster : Cluster
other_cluster name = managed_by_other

abbrev patched_other : Fallible Node × Cluster
patched_other =
    nodes_client.patch_node (record { name = "n1"; labels = made managed_by_other })
      (record {
        name = "n1";
        labels = made (insert "ecns.easystack.io/npu.config.state" "in-progress" managed_by_other);
      })
      other_cluster

reconcile-other_policy_example :
    (reconcile npu_client daemon req other_cluster
      ≡ (ok (daemon, ended patched_other.0), patched_other.1))
    × ((other k : String)
        → get k (labels_at other patched_other.1) ≡ (
            if true && "n1" == other && "ecns.easystack.io/npu.config.state" == k
            then some "in-progress"
            else get k (labels_at other other_cluster)))
unfolding lookup
reconcile-other_policy_example =
    reconcile-other_policy npu_client labels_at nodes_client-IsLabelled daemon req npu_policy "n1"
      "b" managed_by_other other_cluster other_cluster other_cluster patched_other.1 patched_other.0
      refl refl (λ k. refl) refl refl refl refl
