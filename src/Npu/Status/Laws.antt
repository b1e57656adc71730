-- ===== src/Npu/Status/Laws.antt =====
-- What the status of an NPU policy says of a node.
use accelerator_config_manag.Prelude.{
  String, Bool, false, Option, none, some, List, [], ◌∷◌, ◌==◌, ◌≡◌, refl, ◌∙◌, arith, eq_iff,
  if◌then◌else◌,
}
use accelerator_config_manag.Prelude.Dict.{Dict, lookup, insert, lookup-insert}
use accelerator_config_manag.Prelude.GoMap.{GoMap, nil_map, made, get, entries, lookup-entries}
use accelerator_config_manag.Prelude.Run.{ok}
use accelerator_config_manag.Api.Meta.{Node}
use accelerator_config_manag.Api.Npu.{NpuNodeStatus, NpuNodePolicy, no_status}
use accelerator_config_manag.Api.Npu.SyncStatus
use accelerator_config_manag.Common.Filter.Laws.{named}
use accelerator_config_manag.Npu.Status.{
  sync_status, status_or_new, update_npu_node_policy_status, update_statuses, make_nodes,
  init_npu_node_policy_status,
}

-- The policy after a write to the status of one node.
abbrev pub with_nodes : NpuNodePolicy → Dict NpuNodeStatus → NpuNodePolicy
with_nodes p d = record p { status = record { nodes = made d } }

-- UpdateNpuNodePolicyStatus on a policy whose statuses are made.
pub update_npu_node_policy_status_made :
    (p : NpuNodePolicy) (d : Dict NpuNodeStatus) (node status : String) (force : Bool)
    → update_npu_node_policy_status (with_nodes p d) node status force
      ≡ ok (with_nodes p (insert node (sync_status status force (status_or_new (lookup node d))) d))
unfolding update_npu_node_policy_status
update_npu_node_policy_status_made p d node status force = refl

initialised : List Node → Dict NpuNodeStatus → Dict NpuNodeStatus
initialised [] d = d
initialised (node ∷ nodes) d = initialised nodes (
    insert node.name
      (sync_status SyncStatus.initializing false (status_or_new (lookup node.name d))) d)

-- A status that is not empty stays.
sync_status_idem :
    (s : NpuNodeStatus)
    → sync_status SyncStatus.initializing false (sync_status SyncStatus.initializing false s)
      ≡ sync_status SyncStatus.initializing false s
unfolding sync_status
sync_status_idem s = ground arith

lookup-initialised :
    (nodes : List Node) (d : Dict NpuNodeStatus) (k : String)
    → lookup k (initialised nodes d) ≡ (
        if named k nodes
        then some (sync_status SyncStatus.initializing false (status_or_new (lookup k d)))
        else lookup k d)
unfolding initialised named
lookup-initialised [] d k = refl
lookup-initialised (node ∷ nodes) d k =
    lookup-initialised nodes _ k
    ∙ rw lookup-insert
        (ground (arith, eq_iff node.name k, sync_status_idem (status_or_new (lookup k d))))

update_statuses_parts :
    (p : NpuNodePolicy) (nodes : List Node) (d : Dict NpuNodeStatus)
    → update_statuses (with_nodes p d) nodes SyncStatus.initializing false
      ≡ ok (with_nodes p (initialised nodes d))
unfolding update_statuses update_npu_node_policy_status initialised
update_statuses_parts p [] d = refl
update_statuses_parts p (node ∷ nodes) d = update_statuses_parts p nodes _

make_nodes-made : (g : GoMap NpuNodeStatus) → make_nodes g ≡ made (entries g)
make_nodes-made nil_map = refl
make_nodes-made (made d) = refl

-- The status that a claimed node has after InitNpuNodePolicyStatus, from the one before.
pub initial_status : Option NpuNodeStatus → NpuNodeStatus
initial_status none = record no_status { sync_status = SyncStatus.initializing }
initial_status (some s) =
    if s.sync_status == "" then record s { sync_status = SyncStatus.initializing } else s

initial_status-eq :
    (o : Option NpuNodeStatus)
    → sync_status SyncStatus.initializing false (status_or_new o) ≡ initial_status o
unfolding sync_status initial_status
initial_status-eq none = refl
initial_status-eq (some s) = refl

-- InitNpuNodePolicyStatus does not panic, also where the policy has no status yet. A claimed node
-- without a status, or with an empty one, is "Initializing" afterwards. A claimed node that has a
-- status keeps it, and so does every node that is not claimed.
pub init_npu_node_policy_status_lem :
    (p : NpuNodePolicy) (nodes : List Node)
    → (d : Dict NpuNodeStatus) × (init_npu_node_policy_status p nodes ≡ ok (with_nodes p d))
      × ((k : String)
          → lookup k d ≡ (
              if named k nodes
              then some (initial_status (get k p.status.nodes))
              else get k p.status.nodes))
unfolding init_npu_node_policy_status
init_npu_node_policy_status_lem p nodes = (
  initialised nodes (entries p.status.nodes),
  rw (make_nodes-made p.status.nodes, update_statuses_parts),
  (λ k. rw (lookup-initialised, initial_status-eq, lookup-entries) refl),
)
