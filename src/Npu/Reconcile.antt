-- ===== src/Npu/Reconcile.antt =====
-- Reconcile of internal/controller/npunodepolicy_controller.go. Log lines are not modelled.
pub mod Laws
pub mod Total
pub mod Finalize
use accelerator_config_manag.Prelude.{ℕ, String, ◌<>◌, Bool, true, false, ◌||◌, ◌==◌}
use accelerator_config_manag.Prelude.{
  Option, none, some, List, [], ◌∷◌, ◌++◌, if◌then◌else◌, is_some,
}
use accelerator_config_manag.Prelude.{String-discrete}
use accelerator_config_manag.Prelude.Int.{ℤ-discrete}
use accelerator_config_manag.Prelude.Dict.{Dict}
use accelerator_config_manag.Prelude.GoMap.{GoMap, made}
use accelerator_config_manag.Prelude.Eff.{Eff, pure, lift, call, ◌>>=◌}
use accelerator_config_manag.Api.Meta.{
  Node, NamespacedName, name_string, Result, no_result, is_zero, Error, GoError, Fallible, done,
  failed, wrap,
}
use accelerator_config_manag.Api.Npu.{NpuNodePolicy, NpuNodeStatus}
use accelerator_config_manag.Common.Text.{string_in_array, remove_string}
use accelerator_config_manag.Common.Filter.{filter_nodes}
use accelerator_config_manag.Common.DeepEqual.{deep_equal}
use accelerator_config_manag.Common.Outcome.{
  Outcome, fail, finish, unless_error, unless_wrapped, set_up,
}
use accelerator_config_manag.Gpu.Names.{release_finalizer_name}
use accelerator_config_manag.Npu.Names.{npu_mode_managed_by_label}
use accelerator_config_manag.Npu.Controls.{NpuModeManager, new_npu_mode_manager}
use accelerator_config_manag.Npu.Status.{init_npu_node_policy_status}
use accelerator_config_manag.Npu.Nodes.{adopt_nodes, update_nodes, release_nodes}
use accelerator_config_manag.Npu.External.{NpuClient}

-- `client.MatchingLabels{NpuModeManagedByLabel: name}`
abbrev pub managed_selector : String → GoMap String
managed_selector name = made ((npu_mode_managed_by_label, name) ∷ [])

pub NpuNodeStatus-discrete : Discrete NpuNodeStatus
NpuNodeStatus-discrete = hlevel (String-discrete, ℤ-discrete)

module _ {S : Type 0} (client : NpuClient S) where
  -- `return reconcile.Result{}, err` after the policy is updated: the error of ReleaseNodes.
  abbrev pub updated_policy : Error → Fallible NpuNodePolicy → Eff S Outcome
  updated_policy err (done policy) = pure (no_result, err)
  updated_policy err (failed e) = pure (fail e)

  abbrev pub update_without : Error → NpuNodePolicy → List String → Eff S Outcome
  update_without err origin finalizers = do
    answer ← call (
        client.update_policy
          (record origin { metadata = record origin.metadata { finalizers = finalizers } }))
    updated_policy err answer

  -- Removing the finalizer, the last step for a policy that is being deleted.
  unfoldable pub drop_finalizer : Error → NpuNodePolicy → Eff S Outcome
  drop_finalizer err origin =
      let (finalizers, found) = remove_string release_finalizer_name origin.metadata.finalizers in
      if found then update_without err origin finalizers else pure (no_result, err)

  -- `if requeue, err = r.ReleaseNodes(…); requeue { return …{Requeue: requeue}, err }`
  abbrev pub after_release : NpuNodePolicy → Bool × Error → Eff S Outcome
  after_release origin (true, err) = pure (record { requeue = true; requeue_after = none }, err)
  after_release origin (false, err) = drop_finalizer err origin

  abbrev pub finalize_nodes : NpuNodePolicy → Fallible (List Node) → Eff S Outcome
  finalize_nodes origin (failed e) = pure (fail (wrap "unable to list managed nodes, err " e))
  finalize_nodes origin (done nodes) = do
    released ← release_nodes client.nodes nodes
    after_release origin released

  -- The branch for a policy that is being deleted. The nodes are those that its selector matches.
  unfoldable pub finalize : NpuNodePolicy → Eff S Outcome
  unfolding drop_finalizer
  finalize origin =
      if string_in_array release_finalizer_name origin.metadata.finalizers
      then (do
        nodes ← call (client.nodes.list_nodes origin.spec.node_selector)
        finalize_nodes origin nodes)
      else pure finish

  -- From the comparison of the statuses on.
  unfoldable pub write_status :
      NamespacedName → NpuNodePolicy → NpuNodePolicy → Bool → Eff S Outcome
  write_status req origin instance_ requeue =
      if deep_equal NpuNodeStatus-discrete origin.status.nodes instance_.status.nodes
      then pure (set_up req requeue)
      else do
        err ← call (client.update_status instance_)
        unless_wrapped "failed to update status, " err (pure (set_up req requeue))

  module _ (visit : Dict Node → Dict Node) where
    -- From InitNpuNodePolicyStatus on. `requeue, err = r.ReleaseNodes(ctx, release)` overwrites the
    -- `requeue` that a failed AdoptNodes or UpdateNodes has set.
    unfoldable pub setup_nodes :
        NamespacedName → NpuNodePolicy → List Node → List Node → Eff S Outcome
    unfolding write_status
    setup_nodes req origin claimed matched = do
      let f = filter_nodes visit claimed matched
      policy ← lift (init_npu_node_policy_status origin claimed)
      (m1, adopted) ← adopt_nodes client.nodes (new_npu_mode_manager policy) f.adopt
      (m2, updated) ← update_nodes client.nodes m1 f.match_
      (requeue, released) ← release_nodes client.nodes f.release
      write_status req origin m2.instance_ requeue

    abbrev pub with_matched :
        NamespacedName → NpuNodePolicy → List Node → Fallible (List Node) → Eff S Outcome
    with_matched req origin claimed (failed e) =
        pure (fail (wrap "unable to list matched nodes, err " e))
    with_matched req origin claimed (done matched) = setup_nodes req origin claimed matched

    abbrev pub with_claimed : NamespacedName → NpuNodePolicy → Fallible (List Node) → Eff S Outcome
    with_claimed req origin (failed e) = pure (fail (wrap "unable to list claimed nodes, err " e))
    with_claimed req origin (done claimed) = do
      matched ← call (client.nodes.list_nodes (managed_selector origin.metadata.name))
      with_matched req origin claimed matched

    -- For a policy with the finalizer.
    unfoldable pub sync : NamespacedName → NpuNodePolicy → Eff S Outcome
    unfolding setup_nodes
    sync req origin = do
      claimed ← call (client.nodes.list_nodes origin.spec.node_selector)
      with_claimed req origin claimed

    abbrev pub sync_registered : NamespacedName → Fallible NpuNodePolicy → Eff S Outcome
    sync_registered req (failed e) = pure (fail e)
    sync_registered req (done origin) = sync req origin

    abbrev pub with_finalizer : NpuNodePolicy → NpuNodePolicy
    with_finalizer origin = record origin {
      metadata = record origin.metadata {
        finalizers = origin.metadata.finalizers ++ release_finalizer_name ∷ [];
      };
    }

    -- The branch for a policy that is not being deleted.
    unfoldable pub register : NamespacedName → NpuNodePolicy → Eff S Outcome
    unfolding sync
    register req origin =
        if string_in_array release_finalizer_name origin.metadata.finalizers
        then sync req origin
        else do
          answer ← call (client.update_policy (with_finalizer origin))
          sync_registered req answer

    abbrev pub with_policy : NamespacedName → Fallible NpuNodePolicy → Eff S Outcome
    with_policy req (failed e) = pure (if e.is_not_found then finish else fail e)
    with_policy req (done origin) =
        if is_zero origin.metadata.deletion_timestamp then register req origin else finalize origin

    unfoldable pub reconcile : NamespacedName → Eff S Outcome
    unfolding register finalize
    reconcile req = do answer ← call (client.get_policy req); with_policy req answer
