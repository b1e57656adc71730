-- ===== src/Tests/Npus.antt =====
-- The deletion of an NPU policy, by the controller and the daemon, and the daemon's events.
use mathlib.Core.List.{Memᴰ}
use accelerator_config_manag.Prelude.{String, true, false, none, List, [], ◌∷◌, ◌≡◌, refl, inl}
use accelerator_config_manag.Prelude.Dict.{Dict, lookup, insert, erase}
use accelerator_config_manag.Prelude.GoMap.{made}
use accelerator_config_manag.Prelude.Run.{Run, ok}
use accelerator_config_manag.Api.Meta.{Node}
use accelerator_config_manag.Common.Client.{joined_error}
use accelerator_config_manag.Common.Client.Labelled.{IsFresh}
use accelerator_config_manag.Common.Filter.Laws.{named}
use accelerator_config_manag.Common.Outcome.{Outcome}
use accelerator_config_manag.Common.Text.{string_in_array}
use accelerator_config_manag.Labels.{drop_label, drop_row}
use accelerator_config_manag.Npu.Controls.{remove_all_npu_mode_labels}
use accelerator_config_manag.Npu.Nodes.{is_restored, release_nodes, release_loop, release_node}
use accelerator_config_manag.Npu.Nodes.Unrestored.{unrestored, is_some_node}
use accelerator_config_manag.Npu.Reconcile.{finalize, drop_finalizer}
use accelerator_config_manag.Npu.Reconcile.Finalize.{npu_finalize_lem}
use accelerator_config_manag.Npu.Protocol.{release_nodes-reconcile}
use accelerator_config_manag.Npu.Daemon.{NpuConfigReconciler, reconcile}
use accelerator_config_manag.Npu.Daemon.Events.{NodeEvent, created, updated, deleted, watch_nodes}
use accelerator_config_manag.Npu.Daemon.Events.Laws.{is_history, last_label, watch_nodes_lem}
use accelerator_config_manag.Tests.World.{
  Cluster, labels_at, node_at, nodes_client, nodes_client-IsLabelled, patch,
}
use accelerator_config_manag.Tests.Clients.{npu_client, req, daemon, daemon_of}
use accelerator_config_manag.Tests.Resources.{npu_policy}

-- The node is set up by the policy `a`.
abbrev managed : Cluster
managed name =
    ("ecns.easystack.io/npu.deploy.managed-by", "a")
    ∷ ("ecns.easystack.io/npu.config.state", "success")
    ∷ []

abbrev nodes : List Node
nodes = node_at "n1" managed ∷ []

npu_finalize_lem_example :
    (is_some_node (unrestored nodes) ≡ false
      → finalize npu_client npu_policy managed ≡ drop_finalizer npu_client none npu_policy managed)
    × ((out : Outcome) (t : Cluster)
        → is_some_node (unrestored nodes) ≡ true
        → finalize npu_client npu_policy managed ≡ (ok out, t)
        → (release_nodes nodes_client nodes managed ≡ (ok (true, out.1), t))
          × (out.0 ≡ record { requeue = true; requeue_after = none }))
unfolding string_in_array
npu_finalize_lem_example = npu_finalize_lem npu_client npu_policy nodes managed managed refl refl

-- The node is waited for.
waited : is_some_node (unrestored nodes) ≡ true
unfolding unrestored lookup
waited = refl

abbrev released : Cluster
released = (release_nodes nodes_client nodes managed).1

-- What the controller leaves on the node.
abbrev left : Dict String
left = ("ecns.easystack.io/npu.config.state", "success") ∷ []

abbrev restored : Run (NpuConfigReconciler × Outcome) × Cluster
restored = reconcile npu_client daemon req released

release_nodes-reconcile_example :
    (true ≡ true)
    × ((daemon_of restored).npu_policy ≡ "")
    × ((n : Node) → n.name ≡ "n1" → IsFresh labels_at restored.1 n → is_restored n ≡ true)
unfolding named release_nodes release_loop release_node remove_all_npu_mode_labels drop_label
    drop_row lookup erase insert joined_error reconcile patch
release_nodes-reconcile_example =
    release_nodes-reconcile npu_client labels_at nodes_client-IsLabelled daemon nodes
      (node_at "n1" managed) true managed released (refl, tt) ((λ k. refl), tt) (Memᴰ.head refl)
      refl refl req npu_policy left released released released restored.1 (daemon_of restored) refl
      refl (λ k. refl) (λ k. refl) refl

abbrev labelled : String → String → Node
labelled name policy = record {
  name = name;
  labels = made (("ecns.easystack.io/npu.deploy.managed-by", policy) ∷ []);
}

abbrev unlabelled : Node
unlabelled = record { name = "n1"; labels = made [] }

-- The label goes from `a` to `b` and away, while another node has the label `c`; then the node goes,
-- and comes with the label `d`.
abbrev events : List NodeEvent
events =
    created (labelled "n1" "a")
    ∷ updated (labelled "n1" "a") (labelled "n1" "b")
    ∷ created (labelled "n2" "c")
    ∷ updated (labelled "n1" "b") unlabelled
    ∷ deleted unlabelled
    ∷ created (labelled "n1" "d")
    ∷ updated (labelled "n1" "d") unlabelled
    ∷ []

abbrev fresh_daemon : NpuConfigReconciler
fresh_daemon = record { node = "n1"; npu_policy = "" }

watch_nodes_lem_example :
    watch_nodes fresh_daemon events ≡ record fresh_daemon { npu_policy = last_label "n1" "" events }
unfolding is_history lookup
watch_nodes_lem_example = watch_nodes_lem fresh_daemon "" events refl (inl refl)

-- The daemon remembers `d`.
remembered : last_label "n1" "" events ≡ "d"
unfolding last_label lookup
remembered = refl
