-- ===== src/Gpu/Reconcile.antt =====
-- Reconcile of internal/controller/gpunodepolicy_controller.go. Log lines are not modelled.
pub mod Laws
pub mod Ends
pub mod Total
pub mod Status
use mathlib.Core.Bool.{Bool-discrete}
use accelerator_config_manag.Prelude.{String, ◌<>◌, Bool, true, false, not, ◌&&◌, ◌||◌, ◌==◌}
use accelerator_config_manag.Prelude.{
  Option, none, some, List, [], ◌∷◌, ◌++◌, if◌then◌else◌, is_some,
}
use accelerator_config_manag.Prelude.Dict.{Dict}
use accelerator_config_manag.Prelude.GoMap.{GoMap, made}
use accelerator_config_manag.Prelude.Eff.{Eff, pure, lift, call, ◌>>=◌}
use accelerator_config_manag.Api.Foreign.{Foreign}
use accelerator_config_manag.Api.Meta.{
  Node, NamespacedName, name_string, Result, no_result, is_zero, Error, GoError, Fallible, done,
  failed, wrap,
}
use accelerator_config_manag.Api.Gpu.{GpuNodePolicy, GpuNodeStatus}
use accelerator_config_manag.Api.Gpu.DeviceMode
use accelerator_config_manag.Common.Text.{string_in_array, remove_string}
use accelerator_config_manag.Common.Filter.{filter_nodes}
use accelerator_config_manag.Gpu.Names.{release_finalizer_name, mode_managed_by_label}
use accelerator_config_manag.Gpu.Controls.{GpuModeManager, new_gpu_mode_manager}
use accelerator_config_manag.Gpu.Status.{init_gpu_node_policy_status}
use accelerator_config_manag.Common.DeepEqual.{deep_equal}
use accelerator_config_manag.Common.Outcome.{
  Outcome, fail, finish, unless_error, unless_wrapped, set_up,
}
use accelerator_config_manag.Gpu.Nodes.{adopt_nodes, update_nodes, release_nodes, revert_mig_nodes}
use accelerator_config_manag.Gpu.External.{Library, GpuClient}
use accelerator_config_manag.Gpu.ConfigMaps.{
  wrapped, add_device_plugin_config_map_data, remove_device_plugin_config_map_data,
}
use accelerator_config_manag.Gpu.ConfigMaps.Mig.{
  add_mig_config_map_data, remove_mig_config_map_data,
}

pub GpuNodeStatus-discrete : Discrete GpuNodeStatus
GpuNodeStatus-discrete = hlevel Bool-discrete

-- `client.MatchingLabels{ModeManagedByLabel: name}`
abbrev pub managed_selector : String → GoMap String
managed_selector name = made ((mode_managed_by_label, name) ∷ [])

-- `RequeueAfter: 5 * time.Second`
abbrev pub wait_for_mig : Outcome
wait_for_mig = (record { requeue = false; requeue_after = some 5 }, none)

module _ {F : Foreign} {S : Type 0} (lib : Library F) (client : GpuClient F S)
    (namespace : String) where
  abbrev pub updated_policy : Fallible (GpuNodePolicy F) → Eff S Outcome
  updated_policy (done policy) = pure finish
  updated_policy (failed e) = pure (fail e)

  abbrev pub update_without : GpuNodePolicy F → List String → Eff S Outcome
  update_without origin finalizers = do
    answer ← call (
        client.update_policy
          (record origin { metadata = record origin.metadata { finalizers = finalizers } }))
    updated_policy answer

  -- Removing the finalizer, the last step for a policy that is being deleted.
  unfoldable pub drop_finalizer : GpuNodePolicy F → Eff S Outcome
  drop_finalizer origin =
      let (finalizers, found) = remove_string release_finalizer_name origin.metadata.finalizers in
      if found then update_without origin finalizers else pure finish

  -- The nodes are reverted from MIG, if need be: release them and revert the configurations.
  unfoldable pub release_managed : GpuNodePolicy F → List Node → Eff S Outcome
  unfolding drop_finalizer
  release_managed origin nodes = do
    released ← release_nodes client.nodes nodes
    unless_error released (do
      reverted ← remove_device_plugin_config_map_data client namespace origin
      unless_wrapped "unable to revert device plugin configmap, err " reverted (do
        reverted' ← remove_mig_config_map_data lib client namespace origin
        unless_wrapped "unable to revert mig manager configmap, err " reverted'
            (drop_finalizer origin)))

  abbrev pub release_when : GpuNodePolicy F → List Node → Bool → Eff S Outcome
  release_when origin nodes true = release_managed origin nodes
  release_when origin nodes false = pure wait_for_mig

  abbrev pub finalize_nodes : GpuNodePolicy F → Fallible (List Node) → Eff S Outcome
  finalize_nodes origin (failed e) = pure (fail (wrap "unable to list managed nodes, err " e))
  finalize_nodes origin (done nodes) =
      if origin.spec.mode == DeviceMode.mig
      then (do reverted ← revert_mig_nodes client.nodes nodes; release_when origin nodes reverted)
      else release_managed origin nodes

  -- The branch for a policy that is being deleted.
  unfoldable pub finalize : GpuNodePolicy F → Eff S Outcome
  unfolding release_managed
  finalize origin =
      if string_in_array release_finalizer_name origin.metadata.finalizers
      then (do
        nodes ← call (client.nodes.list_nodes (managed_selector origin.metadata.name))
        finalize_nodes origin nodes)
      else pure finish

  -- `setupMigMode`
  abbrev pub with_mig : GpuModeManager F × Error → Eff S (GpuModeManager F × Error)
  with_mig (m, some e) = pure (m, some (wrap "fail to setup to time-slicing config: " e))
  with_mig (m, none) = do
    (m', err) ← add_mig_config_map_data lib client namespace m
    pure (m', wrapped "fail to setup to mig config: " err)

  unfoldable pub setup_mig_mode : GpuModeManager F → Eff S (GpuModeManager F × Error)
  setup_mig_mode m = do
    added ← add_device_plugin_config_map_data lib client namespace m
    with_mig added

  abbrev pub wrap_setup : String → GpuModeManager F × Error → GpuModeManager F × Error
  wrap_setup text (m, err) = (m, wrapped text err)

  -- The switch of step 3, with `setupTimeSlicingMode`.
  unfoldable pub setup_mode : GpuModeManager F → Eff S (GpuModeManager F × Error)
  unfolding setup_mig_mode
  setup_mode m =
      if m.mode == DeviceMode.time_slicing
      then (do
        added ← add_device_plugin_config_map_data lib client namespace m
        pure (wrap_setup "unable to setup to time-slicing mode, err " added))
      else if m.mode == DeviceMode.mig
      then (do
        added ← setup_mig_mode m
        pure (wrap_setup "unable to setup to mig mode, err " added))
      else pure (m, none)

  -- From the comparison of the statuses on.
  unfoldable pub write_status :
      NamespacedName → GpuNodePolicy F → GpuNodePolicy F → Bool → Eff S Outcome
  write_status req origin instance_ requeue =
      if deep_equal GpuNodeStatus-discrete origin.status.nodes instance_.status.nodes
      then pure (set_up req requeue)
      else do
        err ← call (client.update_status instance_)
        unless_wrapped "failed to update status, " err (pure (set_up req requeue))

  module _ (visit : Dict Node → Dict Node) where
    -- From InitGpuNodePolicyStatus on, with the configurations set up.
    unfoldable pub setup_nodes :
        NamespacedName → GpuNodePolicy F → GpuModeManager F → List Node → List Node → Eff S Outcome
    unfolding write_status
    setup_nodes req origin m claimed matched = do
      let f = filter_nodes visit claimed matched
      m1 ← lift (init_gpu_node_policy_status m claimed)
      (m2, adopted) ← adopt_nodes client.nodes m1 f.adopt
      (m3, updated) ← update_nodes client.nodes m2 f.match_
      released ← release_nodes client.nodes f.release
      write_status req origin m3.instance_ (is_some adopted || is_some updated || is_some released)

    abbrev pub setup_when_configured :
        NamespacedName
        → GpuNodePolicy F
        → List Node
        → List Node
        → GpuModeManager F × Error
        → Eff S Outcome
    setup_when_configured req origin claimed matched (m, some e) = pure (fail e)
    setup_when_configured req origin claimed matched (m, none) =
        setup_nodes req origin m claimed matched

    abbrev pub with_matched :
        NamespacedName → GpuNodePolicy F → List Node → Fallible (List Node) → Eff S Outcome
    with_matched req origin claimed (failed e) =
        pure (fail (wrap "unable to list matched nodes, err " e))
    with_matched req origin claimed (done matched) = do
      configured ← setup_mode (new_gpu_mode_manager origin)
      setup_when_configured req origin claimed matched configured

    abbrev pub with_claimed :
        NamespacedName → GpuNodePolicy F → Fallible (List Node) → Eff S Outcome
    with_claimed req origin (failed e) = pure (fail (wrap "unable to list claimed nodes, err " e))
    with_claimed req origin (done claimed) = do
      matched ← call (client.nodes.list_nodes (managed_selector origin.metadata.name))
      with_matched req origin claimed matched

    -- Steps 1 to 3 and the set-up of the nodes, for a policy with the finalizer.
    unfoldable pub sync : NamespacedName → GpuNodePolicy F → Eff S Outcome
    unfolding setup_nodes setup_mode
    sync req origin = do
      claimed ← call (client.nodes.list_nodes origin.spec.node_selector)
      with_claimed req origin claimed

    abbrev pub sync_registered : NamespacedName → Fallible (GpuNodePolicy F) → Eff S Outcome
    sync_registered req (failed e) = pure (fail e)
    sync_registered req (done origin) = sync req origin

    abbrev pub with_finalizer : GpuNodePolicy F → GpuNodePolicy F
    with_finalizer origin = record origin {
      metadata = record origin.metadata {
        finalizers = origin.metadata.finalizers ++ release_finalizer_name ∷ [];
      };
    }

    -- The branch for a policy that is not being deleted.
    unfoldable pub register : NamespacedName → GpuNodePolicy F → Eff S Outcome
    unfolding sync
    register req origin =
        if string_in_array release_finalizer_name origin.metadata.finalizers
        then sync req origin
        else do
          answer ← call (client.update_policy (with_finalizer origin))
          sync_registered req answer

    abbrev pub with_policy : NamespacedName → Fallible (GpuNodePolicy F) → Eff S Outcome
    with_policy req (failed e) = pure (if e.is_not_found then finish else fail e)
    with_policy req (done origin) =
        if is_zero origin.metadata.deletion_timestamp then register req origin else finalize origin

    unfoldable pub reconcile : NamespacedName → Eff S Outcome
    unfolding register finalize
    reconcile req = do answer ← call (client.get_policy req); with_policy req answer
