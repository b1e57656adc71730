-- ===== src/Npu/Daemon/Events/Laws.antt =====
-- The policy that the predicates on events remember in `r.NpuPolicy`, against the history of the
-- node's label.
use accelerator_config_manag.Prelude.{
  String, Bool, true, not, ◌&&◌, ◌||◌, ◌==◌, ◌≡◌, refl, ◌⊎◌, inl, inr, Option-cases,
}
use accelerator_config_manag.Prelude.{
  Option, none, some, List, [], ◌∷◌, if◌then◌else◌, arith, eq_iff,
}
use accelerator_config_manag.Labels.{text_of}
use accelerator_config_manag.Npu.Daemon.{NpuConfigReconciler}
use accelerator_config_manag.Npu.Daemon.Events.{
  policy_label, label_created, label_updated, NodeEvent, created, updated, deleted, generic,
  watch_node, watch_nodes,
}

-- The label, or `seen` where there is none.
abbrev pub text_or : String → Option String → String
text_or seen none = seen
text_or seen (some v) = v

-- The label of the node `own` after an event, from its label before it.
abbrev pub label_after : String → String → NodeEvent → String
label_after own current (created node) =
    if node.name == own then text_of (policy_label node) else current
label_after own current (updated old new) =
    if new.name == own then text_of (policy_label new) else current
label_after own current (deleted node) = if node.name == own then "" else current
label_after own current (generic node) = current

-- An update of the node starts from the label that it has.
abbrev pub follows : String → String → NodeEvent → Bool
follows own current (created node) = true
follows own current (updated old new) =
    not (new.name == own) || text_of (policy_label old) == current
follows own current (deleted node) = true
follows own current (generic node) = true

-- The events on the node `own` follow one another, from one that has left the label `current`.
unfoldable pub is_history : String → String → List NodeEvent → Bool
is_history own current [] = true
is_history own current (e ∷ events) =
    follows own current e && is_history own (label_after own current e) events

-- What is remembered of an event: the label that the node has now, if it has one, whether or not it
-- has changed.
abbrev pub seen_after : String → String → NodeEvent → String
seen_after own seen (created node) =
    if node.name == own then text_or seen (policy_label node) else seen
seen_after own seen (updated old new) =
    if not (new.name == own) || text_of (policy_label new) == ""
    then seen
    else text_of (policy_label new)
seen_after own seen (deleted node) = seen
seen_after own seen (generic node) = seen

-- The last label of the node in the events, or `seen` if it had none.
unfoldable pub last_label : String → String → List NodeEvent → String
last_label own seen [] = seen
last_label own seen (e ∷ events) = last_label own (seen_after own seen e) events

watch_node_lem :
    (r : NpuConfigReconciler) (current : String) (e : NodeEvent)
    → follows r.node current e ≡ true
    → (current ≡ "") ⊎ (r.npu_policy ≡ current)
    → ((watch_node r e).0 ≡ record r { npu_policy = seen_after r.node r.npu_policy e })
      × ((label_after r.node current e ≡ "")
          ⊎ (seen_after r.node r.npu_policy e ≡ label_after r.node current e))
unfolding watch_node label_created label_updated
watch_node_lem r current (created node) f h = elim (Option-cases (policy_label node)) [
  | inl q ↦ rw q (ground arith)
  | inr (v, q) ↦ rw q (ground arith)
]
watch_node_lem r current (updated old new) f h = ground (
  arith,
  eq_iff (text_of (policy_label old)) (text_of (policy_label new)),
  eq_iff (text_of (policy_label new)) "",
  eq_iff (text_of (policy_label old)) current,
)
watch_node_lem r current (deleted node) f h = ground arith
watch_node_lem r current (generic node) f h = (refl, h)

-- Before the events the node has no label, or the one that is remembered, and each update of the node
-- starts from the label that the event before it has left, where a deletion leaves none. Then the
-- daemon remembers the last label in the events, although it looks only at labels that have changed,
-- and it keeps its node.
pub watch_nodes_lem :
    (r : NpuConfigReconciler) (current : String) (events : List NodeEvent)
    → is_history r.node current events ≡ true
    → (current ≡ "") ⊎ (r.npu_policy ≡ current)
    → watch_nodes r events ≡ record r { npu_policy = last_label r.node r.npu_policy events }
unfolding watch_nodes is_history last_label
watch_nodes_lem r current [] f h = refl
watch_nodes_lem r current (e ∷ events) f h =
    let (now, holds) = watch_node_lem r current e (ground arith) h in
    rw now (
      watch_nodes_lem (record r { npu_policy = seen_after r.node r.npu_policy e })
        (label_after r.node current e) events (ground arith) holds)
