-- ===== src/Gpu/Nodes.antt =====
-- AdoptNodes, UpdateNodes, ReleaseNodes and RevertMigNodes of
-- internal/controller/gpunodepolicy_controller.go: loops over nodes that go on after an error.
pub mod Laws
pub mod Release
pub mod Adopt
pub mod Update
pub mod Total
pub mod Kept
use accelerator_config_manag.Prelude.{
  String, ◌<>◌, Bool, true, false, not, ◌&&◌, ◌==◌, List, [], ◌∷◌, ◌++◌,
}
use accelerator_config_manag.Prelude.{Option, none, some, if◌then◌else◌}
use accelerator_config_manag.Prelude.GoMap.{GoMap, get, assign, remove}
use accelerator_config_manag.Prelude.Run.{Run, ok}
use accelerator_config_manag.Prelude.Run
use accelerator_config_manag.Prelude.Eff.{Eff, pure, lift, call, ◌>>=◌}
use accelerator_config_manag.Api.Foreign.{Foreign}
use accelerator_config_manag.Api.Meta.{Node, Error, GoError, Fallible, done, failed}
use accelerator_config_manag.Labels.{Labels, text_of}
use accelerator_config_manag.Common.Client.{NodeClient, joined_error}
use accelerator_config_manag.Gpu.Names.{
  mode_managed_by_label, mig_manager_label_key, mig_config_label,
  mig_config_label_value_all_disabled, mig_config_state_label, mig_config_state_label_value_success,
}
use accelerator_config_manag.Gpu.Controls.{
  GpuModeManager, update_gpu_state_labels, remove_all_gpu_mode_labels,
}
use accelerator_config_manag.Gpu.Status.{update_gpu_node_policy_status}

-- `v, ok := labels[ModeManagedByLabel]; ok && v != manager.managedBy`
abbrev pub held_by_other : String → Option String → Bool
held_by_other managed_by none = false
held_by_other managed_by (some v) = not (v == managed_by)

abbrev pub node_error : String → String → GoError → String
node_error text name e = text <> (name <> (", err " <> e.message))

-- The error of a patch, without the node that it fills in.
abbrev pub error_of : Fallible Node → Error
error_of (done node) = none
error_of (failed e) = some e

module _ {F : Foreign} {S : Type 0} (client : NodeClient S) where
  -- `sync := false; UpdateGpuNodePolicyStatus(manager.instance, node.GetName(), &sync, &sync)`
  abbrev pub reset_sync : GpuModeManager F → Node → Run (GpuModeManager F)
  reset_sync m node =
      Run.◌>>=◌ (update_gpu_node_policy_status m.instance_ node.name (some false) (some false))
        (λ policy. ok (record m { instance_ = policy }))

  -- What follows the write to a node: the text for `errList`, or the new status.
  abbrev pub after_write :
      String → GpuModeManager F → Node → Error → Eff S (GpuModeManager F × List String)
  after_write text m node none = do m' ← lift (reset_sync m node); pure (m', [])
  after_write text m node (some e) = pure (m, node_error text node.name e ∷ [])

  abbrev pub write_adopted :
      GpuModeManager F → Node → Labels → Eff S (GpuModeManager F × List String)
  write_adopted m node labels = do
    err ← call (client.update_node (record node { labels = labels }))
    after_write "unable to add the GPU mode labels for node " m node err

  -- One round of the loop of AdoptNodes.
  unfoldable pub adopt_node : GpuModeManager F → Node → Eff S (GpuModeManager F × List String)
  adopt_node m node =
      if held_by_other m.managed_by (get mode_managed_by_label node.labels)
      then pure (m, [])
      else do
        (labels, modified) ← lift (update_gpu_state_labels m node.labels)
        if modified then write_adopted m node labels else pure (m, [])

  unfoldable pub adopt_loop : GpuModeManager F → List Node → Eff S (GpuModeManager F × List String)
  adopt_loop m [] = pure (m, [])
  adopt_loop m (node ∷ nodes) = do
    (m', errs) ← adopt_node m node
    (m'', rest) ← adopt_loop m' nodes
    pure (m'', errs ++ rest)

  unfoldable pub adopt_nodes : GpuModeManager F → List Node → Eff S (GpuModeManager F × Error)
  adopt_nodes m nodes = do
    (m', errs) ← adopt_loop m nodes
    pure (m', joined_error client.errorf errs)

  abbrev pub write_updated :
      GpuModeManager F → Node → Labels → Eff S (GpuModeManager F × List String)
  write_updated m node labels = do
    answer ← call (client.patch_node node (record node { labels = labels }))
    after_write "unable to update the GPU mode labels for node " m node (error_of answer)

  -- One round of the loop of UpdateNodes.
  unfoldable pub update_node : GpuModeManager F → Node → Eff S (GpuModeManager F × List String)
  update_node m node = do
    (labels, modified) ← lift (update_gpu_state_labels m node.labels)
    if modified then write_updated m node labels else pure (m, [])

  unfoldable pub update_loop : GpuModeManager F → List Node → Eff S (GpuModeManager F × List String)
  update_loop m [] = pure (m, [])
  update_loop m (node ∷ nodes) = do
    (m', errs) ← update_node m node
    (m'', rest) ← update_loop m' nodes
    pure (m'', errs ++ rest)

  unfoldable pub update_nodes : GpuModeManager F → List Node → Eff S (GpuModeManager F × Error)
  update_nodes m nodes = do
    (m', errs) ← update_loop m nodes
    pure (m', joined_error client.errorf errs)

-- The labels that ask the MIG manager to disable MIG.
unfoldable pub disable_mig : Labels → Run Labels
disable_mig labels = Run.◌>>=◌ (assign mig_manager_label_key "true" labels) (λ l1.
    Run.◌>>=◌ (assign mig_config_label mig_config_label_value_all_disabled l1)
      (λ l2. ok (remove mig_config_state_label l2)))

abbrev pub is_reverted : Labels → Bool
is_reverted labels =
    text_of (get mig_config_state_label labels) == mig_config_state_label_value_success

abbrev pub patched_reverted : Labels → Fallible Node → Bool
patched_reverted labels (done n) = is_reverted labels
patched_reverted labels (failed e) = false

module _ {S : Type 0} (client : NodeClient S) where
  abbrev pub patch_error : String → Node → Fallible Node → List String
  patch_error text node (done n) = []
  patch_error text node (failed e) = node_error text node.name e ∷ []

  abbrev pub write_released : Node → Labels → Eff S (List String)
  write_released node labels = do
    answer ← call (client.patch_node node (record node { labels = labels }))
    pure (patch_error "unable to reset the GPU mode labels for node " node answer)

  -- One round of the loop of ReleaseNodes.
  unfoldable pub release_node : Node → Eff S (List String)
  release_node node = do
    (labels, modified) ← lift (remove_all_gpu_mode_labels node.labels)
    if modified then write_released node labels else pure []

  unfoldable pub release_loop : List Node → Eff S (List String)
  release_loop [] = pure []
  release_loop (node ∷ nodes) = do
    errs ← release_node node
    rest ← release_loop nodes
    pure (errs ++ rest)

  unfoldable pub release_nodes : List Node → Eff S Error
  release_nodes nodes = do errs ← release_loop nodes; pure (joined_error client.errorf errs)

  -- One round of the loop of RevertMigNodes: true where it does not set `done` to false.
  unfoldable pub revert_mig_node : Node → Eff S Bool
  revert_mig_node node =
      if text_of (get mig_config_label node.labels) == mig_config_label_value_all_disabled
      then pure (is_reverted node.labels)
      else do
        labels ← lift (disable_mig node.labels)
        answer ← call (client.patch_node node (record node { labels = labels }))
        pure (patched_reverted labels answer)

  unfoldable pub revert_mig_nodes : List Node → Eff S Bool
  revert_mig_nodes [] = pure true
  revert_mig_nodes (node ∷ nodes) = do
    reverted ← revert_mig_node node
    rest ← revert_mig_nodes nodes
    pure (reverted && rest)
