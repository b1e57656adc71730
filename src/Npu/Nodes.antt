-- ===== src/Npu/Nodes.antt =====
-- AdoptNodes, UpdateNodes and ReleaseNodes of internal/controller/npunodepolicy_controller.go: loops
-- over nodes that go on after an error.
pub mod Total
pub mod Update
pub mod Unrestored
pub mod Release
use accelerator_config_manag.Prelude.{
  String, ◌<>◌, Bool, true, false, not, ◌||◌, ◌==◌, List, [], ◌∷◌, ◌++◌,
}
use accelerator_config_manag.Prelude.{Option, none, some, if◌then◌else◌}
use accelerator_config_manag.Prelude.GoMap.{get}
use accelerator_config_manag.Prelude.Run.{Run, ok}
use accelerator_config_manag.Prelude.Run
use accelerator_config_manag.Prelude.Eff.{Eff, pure, lift, call, ◌>>=◌}
use accelerator_config_manag.Api.Meta.{Node, Error, GoError, Fallible, done, failed}
use accelerator_config_manag.Api.Npu.SyncStatus
use accelerator_config_manag.Labels.{Labels, text_of}
use accelerator_config_manag.Common.Client.{NodeClient, joined_error}
use accelerator_config_manag.Npu.Names.{
  npu_mode_managed_by_label, npu_config_state_label, npu_config_state_label_value_restored,
}
use accelerator_config_manag.Npu.Controls.{
  NpuModeManager, update_npu_state_labels, remove_all_npu_mode_labels,
}
use accelerator_config_manag.Npu.Status.{update_npu_node_policy_status}

-- `v, ok := labels[NpuModeManagedByLabel]; ok && v != manager.managedBy`
abbrev pub held_by_other : String → Option String → Bool
held_by_other managed_by none = false
held_by_other managed_by (some v) = not (v == managed_by)

abbrev pub node_error : String → String → GoError → String
node_error text name e = text <> (name <> (", err " <> e.message))

abbrev pub error_of : Fallible Node → Error
error_of (done node) = none
error_of (failed e) = some e

-- `UpdateNpuNodePolicyStatus(manager.instance, node.GetName(), esv1.Initialized, true)`
abbrev pub mark_initialized : NpuModeManager → Node → Run NpuModeManager
mark_initialized m node =
    Run.◌>>=◌ (update_npu_node_policy_status m.instance_ node.name SyncStatus.initialized true)
      (λ policy. ok (record m { instance_ = policy }))

-- The node's daemon has restored it.
abbrev pub is_restored : Node → Bool
is_restored node =
    text_of (get npu_config_state_label node.labels) == npu_config_state_label_value_restored

module _ {S : Type 0} (client : NodeClient S) where
  -- What follows the write to a node: the text for `errList`, or the new status.
  abbrev pub after_write :
      String → NpuModeManager → Node → Error → Eff S (NpuModeManager × List String)
  after_write text m node none = do m' ← lift (mark_initialized m node); pure (m', [])
  after_write text m node (some e) = pure (m, node_error text node.name e ∷ [])

  abbrev pub write_adopted : NpuModeManager → Node → Labels → Eff S (NpuModeManager × List String)
  write_adopted m node labels = do
    err ← call (client.update_node (record node { labels = labels }))
    after_write "unable to add the NPU mode labels for node " m node err

  -- One round of the loop of AdoptNodes.
  unfoldable pub adopt_node : NpuModeManager → Node → Eff S (NpuModeManager × List String)
  adopt_node m node =
      if held_by_other m.managed_by (get npu_mode_managed_by_label node.labels)
      then pure (m, [])
      else do
        (labels, modified) ← lift (update_npu_state_labels m node.labels)
        if modified then write_adopted m node labels else pure (m, [])

  unfoldable pub adopt_loop : NpuModeManager → List Node → Eff S (NpuModeManager × List String)
  adopt_loop m [] = pure (m, [])
  adopt_loop m (node ∷ nodes) = do
    (m', errs) ← adopt_node m node
    (m'', rest) ← adopt_loop m' nodes
    pure (m'', errs ++ rest)

  unfoldable pub adopt_nodes : NpuModeManager → List Node → Eff S (NpuModeManager × Error)
  adopt_nodes m nodes = do
    (m', errs) ← adopt_loop m nodes
    pure (m', joined_error client.errorf errs)

  abbrev pub write_updated : NpuModeManager → Node → Labels → Eff S (NpuModeManager × List String)
  write_updated m node labels = do
    answer ← call (client.patch_node node (record node { labels = labels }))
    after_write "unable to update the NPU mode labels for node " m node (error_of answer)

  -- One round of the loop of UpdateNodes.
  unfoldable pub update_node : NpuModeManager → Node → Eff S (NpuModeManager × List String)
  update_node m node = do
    (labels, modified) ← lift (update_npu_state_labels m node.labels)
    if modified then write_updated m node labels else pure (m, [])

  unfoldable pub update_loop : NpuModeManager → List Node → Eff S (NpuModeManager × List String)
  update_loop m [] = pure (m, [])
  update_loop m (node ∷ nodes) = do
    (m', errs) ← update_node m node
    (m'', rest) ← update_loop m' nodes
    pure (m'', errs ++ rest)

  unfoldable pub update_nodes : NpuModeManager → List Node → Eff S (NpuModeManager × Error)
  update_nodes m nodes = do
    (m', errs) ← update_loop m nodes
    pure (m', joined_error client.errorf errs)

  abbrev pub patch_error : String → Node → Fallible Node → List String
  patch_error text node (done n) = []
  patch_error text node (failed e) = node_error text node.name e ∷ []

  abbrev pub write_released : Node → Labels → Eff S (List String)
  write_released node labels = do
    answer ← call (client.patch_node node (record node { labels = labels }))
    pure (patch_error "unable to reset the NPU mode labels for node " node answer)

  -- One round of the loop of ReleaseNodes: whether `requeue` is set, and the text for `errList`.
  unfoldable pub release_node : Node → Eff S (Bool × List String)
  release_node node =
      let (labels, modified) = remove_all_npu_mode_labels node.labels in
      if is_restored node
      then pure (false, [])
      else if modified
      then (do errs ← write_released node labels; pure (true, errs))
      else pure (true, [])

  unfoldable pub release_loop : List Node → Eff S (Bool × List String)
  release_loop [] = pure (false, [])
  release_loop (node ∷ nodes) = do
    (requeue, errs) ← release_node node
    (requeue', rest) ← release_loop nodes
    pure (requeue || requeue', errs ++ rest)

  unfoldable pub release_nodes : List Node → Eff S (Bool × Error)
  release_nodes nodes = do
    (requeue, errs) ← release_loop nodes
    pure (requeue, joined_error client.errorf errs)
