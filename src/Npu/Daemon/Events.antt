-- ===== src/Npu/Daemon/Events.antt =====
-- The predicates of addWatchNPUNode and addWatchNpuPolicy: each returns whether the event is taken,
-- and those on labels remember the policy in `r.NpuPolicy`.
pub mod Laws
use accelerator_config_manag.Prelude.{String, Bool, true, false, not, ◌&&◌, ◌==◌}
use accelerator_config_manag.Prelude.{Option, none, some, List, [], ◌∷◌, if◌then◌else◌}
use accelerator_config_manag.Prelude.GoMap.{get}
use accelerator_config_manag.Api.Meta.{Node}
use accelerator_config_manag.Labels.{text_of}
use accelerator_config_manag.Npu.Names.{npu_mode_managed_by_label}
use accelerator_config_manag.Npu.Daemon.{NpuConfigReconciler}

-- `e.Object.GetLabels()[NpuModeManagedByLabel]`
abbrev pub policy_label : Node → Option String
policy_label node = get npu_mode_managed_by_label node.labels

-- `predicateNode`, both functions.
abbrev pub on_own_node : NpuConfigReconciler → Node → Bool
on_own_node r node = node.name == r.node

-- `predicateLabel.CreateFunc`
unfoldable pub label_created : NpuConfigReconciler → Option String → NpuConfigReconciler × Bool
label_created r none = (r, false)
label_created r (some label) = (record r { npu_policy = label }, true)

-- `predicateLabel.UpdateFunc`, for the labels of the old and the new object.
unfoldable pub label_updated : NpuConfigReconciler → String → String → NpuConfigReconciler × Bool
label_updated r old_label new_label =
    if not (new_label == "") && not (old_label == new_label)
    then (record r { npu_policy = new_label }, not (old_label == new_label))
    else (r, not (old_label == new_label))

-- The predicates of addWatchNpuPolicy, on the name of the policy.
abbrev pub on_own_policy : NpuConfigReconciler → String → Bool
on_own_policy r name = name == r.npu_policy

-- The events on nodes that the daemon watches: a node is created, updated from old to new, deleted,
-- or named by an event from outside of the cluster.
pub data NodeEvent : Type 0 where
  created : Node → NodeEvent
  updated : Node → Node → NodeEvent
  deleted : Node → NodeEvent
  generic : Node → NodeEvent

-- Both predicates of `c.Watch`: the second is asked if the first has taken the event. Neither has a
-- DeleteFunc or a GenericFunc, and predicate.Funcs takes the events for which it has no function.
unfoldable pub watch_node : NpuConfigReconciler → NodeEvent → NpuConfigReconciler × Bool
unfolding label_created label_updated
watch_node r (created node) =
    if on_own_node r node then label_created r (policy_label node) else (r, false)
watch_node r (updated old new) =
    if on_own_node r new
    then label_updated r (text_of (policy_label old)) (text_of (policy_label new))
    else (r, false)
watch_node r (deleted node) = (r, true)
watch_node r (generic node) = (r, true)

unfoldable pub watch_nodes : NpuConfigReconciler → List NodeEvent → NpuConfigReconciler
unfolding watch_node
watch_nodes r [] = r
watch_nodes r (e ∷ events) = watch_nodes (watch_node r e).0 events
