-- ===== src/Tests/Nodes.antt =====
-- The loops over nodes and the split of nodes, on one node and on three.
use accelerator_config_manag.Prelude.{String, true, not, ◌&&◌, List, [], ◌∷◌, ◌++◌, ◌≡◌, refl}
use mathlib.Core.List.{Perm}
use mathlib.Core.List.Perm
use accelerator_config_manag.Prelude.Dict.{lookup, erase}
use accelerator_config_manag.Prelude.GoMap.{made}
use accelerator_config_manag.Prelude.Run.{ok}
use accelerator_config_manag.Api.Meta.{Node}
use accelerator_config_manag.Common.Client.{joined_error}
use accelerator_config_manag.Common.Client.Labelled.{AllHave, OthersKept}
use accelerator_config_manag.Common.Filter.{filter_nodes}
use accelerator_config_manag.Common.Filter.Laws.{named, filter_nodes_lem}
use accelerator_config_manag.Labels.{ensure_label, drop_label, drop_row}
use accelerator_config_manag.Gpu.Controls.{remove_all_gpu_mode_labels}
use accelerator_config_manag.Gpu.Controls.Released.{released_gpu_label}
use accelerator_config_manag.Gpu.Nodes.{release_nodes, release_loop, release_node, revert_mig_nodes}
use accelerator_config_manag.Gpu.Nodes.Release.{release_nodes_lem}
use accelerator_config_manag.Gpu.Nodes.Laws.{mig_disabled, all_mig_disabled, revert_mig_nodes_lem}
use accelerator_config_manag.Gpu.Nodes.Adopt.{all_held, adopt_nodes_lem}
use accelerator_config_manag.Tests.Resources.{texts, gpu_policy, gpu_manager}
use accelerator_config_manag.Api.Meta.{Error}
use accelerator_config_manag.Prelude.GoMap.{get}
use accelerator_config_manag.Prelude.Run.{Run, panic}
use accelerator_config_manag.Prelude.{none, ◌==◌, if◌then◌else◌}
use accelerator_config_manag.Gpu.Controls.{
  GpuModeManager, update_gpu_state_labels, set_workload_config,
}
use accelerator_config_manag.Gpu.Status.{update_gpu_node_policy_status}
use accelerator_config_manag.Gpu.Nodes.{adopt_nodes, adopt_loop, adopt_node}
use accelerator_config_manag.Labels.{ensure_row, ensure_config_label}
use accelerator_config_manag.Prelude.Dict.{insert}
use accelerator_config_manag.Tests.World.{
  Cluster, labels_at, node_at, nodes_client, nodes_client-IsLabelled,
}

abbrev managed : Cluster
managed name =
    ("kubernetes.io/hostname", name)
    ∷ ("ecns.easystack.io/gpu.deploy.managed-by", "a")
    ∷ ("nvidia.com/mig.config", "a-1f2e3d")
    ∷ []

abbrev both : List Node
both = node_at "n1" managed ∷ node_at "n2" managed ∷ []

abbrev released : Cluster
released = (release_nodes nodes_client both managed).1

release_nodes_lem_example :
    AllHave labels_at released_gpu_label released both × OthersKept labels_at both managed released
unfolding release_nodes release_loop release_node remove_all_gpu_mode_labels joined_error
    ensure_label drop_label drop_row lookup erase named
release_nodes_lem_example =
    release_nodes_lem nodes_client labels_at nodes_client-IsLabelled both managed released
      (refl, (refl, tt)) ((λ k. refl), ((λ k. refl), tt)) refl

abbrev claimed : List Node
claimed = node_at "n2" managed ∷ node_at "n3" managed ∷ []

filter_nodes_lem_example :
    (let f = filter_nodes (λ m. m) claimed both in
      ((k : String)
        → (named k f.adopt ≡ (named k claimed && not (named k both)))
          × (named k f.match_ ≡ (named k claimed && named k both))
          × (named k f.release ≡ (named k both && not (named k claimed))))
      × Perm (f.match_ ++ f.release) both)
unfolding named
filter_nodes_lem_example =
    filter_nodes_lem (λ m. m) (λ m. Perm.refl m) claimed both (refl, (refl, tt))

abbrev undone : Node
undone = record {
  name = "n1";
  labels =
      made (
        ("nvidia.com/mig.config", "all-disabled")
        ∷ ("nvidia.com/mig.config.state", "success")
        ∷ []);
}

revert_mig_nodes_lem_example :
    ((s' : Cluster)
      → revert_mig_nodes nodes_client (undone ∷ []) managed ≡ (ok true, s')
      → all_mig_disabled (undone ∷ []) ≡ true)
    × (all_mig_disabled (undone ∷ []) ≡ true
        → revert_mig_nodes nodes_client (undone ∷ []) managed ≡ (ok true, managed))
revert_mig_nodes_lem_example = revert_mig_nodes_lem nodes_client (undone ∷ []) managed

-- The second half is not empty.
reverted : all_mig_disabled (undone ∷ []) ≡ true
unfolding all_mig_disabled mig_disabled lookup
reverted = refl

-- The policy `b` holds "n1", and nothing holds the other nodes.
abbrev shared : Cluster
shared name =
    if name == "n1"
    then ("ecns.easystack.io/gpu.deploy.managed-by", "b") ∷ []
    else ("kubernetes.io/hostname", name) ∷ []

-- After InitGpuNodePolicyStatus has made the map of the statuses.
abbrev initialised : GpuModeManager texts
initialised = record gpu_manager {
  instance_ = record (gpu_policy "time-slicing") { status = record { nodes = made [] } };
}

abbrev adopted_managers :
    Run (GpuModeManager texts × Error) × Cluster → GpuModeManager texts × Error
adopted_managers (ok answer, s) = answer
adopted_managers (panic, s) = (gpu_manager, none)

abbrev adoption : Run (GpuModeManager texts × Error) × Cluster
adoption =
    adopt_nodes nodes_client initialised (node_at "n1" shared ∷ node_at "n2" shared ∷ []) shared

adopt_nodes_lem_example :
    get "ecns.easystack.io/gpu.deploy.managed-by" (labels_at "n1" adoption.1)
    ≡ get "ecns.easystack.io/gpu.deploy.managed-by" (labels_at "n1" shared)
unfolding adopt_nodes all_held adopt_loop adopt_node update_gpu_state_labels set_workload_config
    ensure_row ensure_label ensure_config_label drop_label lookup insert
    update_gpu_node_policy_status joined_error
adopt_nodes_lem_example =
    adopt_nodes_lem nodes_client labels_at nodes_client-IsLabelled
      (node_at "n1" shared ∷ node_at "n2" shared ∷ []) initialised (adopted_managers adoption).0
      (adopted_managers adoption).1 "n1" "ecns.easystack.io/gpu.deploy.managed-by" shared adoption.1
      refl refl
