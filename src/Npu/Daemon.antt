-- ===== src/Npu/Daemon.antt =====
-- internal/controller/npuconfig_controller.go: the daemon on each NPU node. Its state `r` is the node
-- that it runs on and the policy that it has seen last on that node. Log lines are not modelled.
pub mod Events
pub mod Laws
use accelerator_config_manag.Prelude.{String, Bool, true, false, not, ◌||◌, ◌==◌}
use accelerator_config_manag.Prelude.{Option, none, some, List, [], ◌∷◌, if◌then◌else◌, is_some}
use accelerator_config_manag.Prelude.GoMap.{GoMap, get, assign}
use accelerator_config_manag.Prelude.Eff.{Eff, pure, lift, call, ◌>>=◌}
use accelerator_config_manag.Api.Meta.{Node, NamespacedName, is_zero, Error, Fallible, done, failed}
use accelerator_config_manag.Api.Npu.{NpuNodePolicy}
use accelerator_config_manag.Labels.{Labels}
use accelerator_config_manag.Common.Outcome.{Outcome, fail, finish}
use accelerator_config_manag.Npu.Names.{
  npu_mode_managed_by_label, npu_config_state_label, npu_config_state_label_value_in_progress,
  npu_config_state_label_value_restored, npu_config_state_label_value_success,
}
use accelerator_config_manag.Npu.External.{NpuClient}

pub record NpuConfigReconciler : Type 0 where
  pub node : String
  pub npu_policy : String

-- `ApplyVnpuConfig` and `Restore`, which are still to be written in the source and return nil.
abbrev pub apply_vnpu_config : Error
apply_vnpu_config = none

abbrev pub restore : Error
restore = none

-- The reconciler after the call, with the outcome.
abbrev pub Turn : Type 0
Turn = NpuConfigReconciler × Outcome

module _ {S : Type 0} (client : NpuClient S) (r : NpuConfigReconciler) where
  abbrev patched : NpuConfigReconciler → Fallible Node → Eff S Turn
  patched r' (done node) = pure (r', finish)
  patched r' (failed e) = pure (r, fail e)

  -- `node.Labels[NpuConfigStateLabel] = state` and the patch against the node as it was read.
  unfoldable pub write_state : Node → Node → String → NpuConfigReconciler → Eff S Turn
  write_state base node state r' = do
    labels ← lift (assign npu_config_state_label state node.labels)
    answer ← call (client.nodes.patch_node base (record node { labels = labels }))
    patched r' answer

  abbrev unless_failed : Error → Eff S Turn → Eff S Turn
  unless_failed none rest = rest
  unless_failed (some e) rest = pure (r, fail e)

  -- A node without a policy, or a policy that is being deleted.
  unfoldable pub restore_node : Node → Node → Eff S Turn
  unfolding write_state
  restore_node base node =
      unless_failed restore
        (write_state base node npu_config_state_label_value_restored (record r { npu_policy = "" }))

  unfoldable pub apply_policy : Node → Node → Eff S Turn
  unfolding write_state
  apply_policy base node =
      unless_failed apply_vnpu_config (write_state base node npu_config_state_label_value_success r)

  -- `else if origin.GetName() != policyName { …; return reconcile.Result{}, err }`, with a nil err.
  abbrev by_policy : NpuNodePolicy → Node → Node → Option String → Eff S Turn
  by_policy origin base node none = restore_node base node
  by_policy origin base node (some policy_name) =
      if not (is_zero origin.metadata.deletion_timestamp)
      then restore_node base node
      else if origin.metadata.name == policy_name
      then apply_policy base node
      else pure (r, finish)

  -- After the first patch, whose answer is the node from here on.
  abbrev in_progress : NpuNodePolicy → Node → Fallible Node → Eff S Turn
  in_progress origin base (failed e) = pure (r, fail e)
  in_progress origin base (done node) =
      by_policy origin base node (get npu_mode_managed_by_label node.labels)

  abbrev with_node : NpuNodePolicy → Fallible Node → Eff S Turn
  with_node origin (failed e) = pure (r, fail e)
  with_node origin (done node) = do
    labels ←
        lift (assign npu_config_state_label npu_config_state_label_value_in_progress node.labels)
    answer ← call (client.nodes.patch_node node (record node { labels = labels }))
    in_progress origin node answer

  abbrev with_policy : Fallible NpuNodePolicy → Eff S Turn
  with_policy (failed e) = pure (r, (if e.is_not_found then finish else fail e))
  with_policy (done origin) = do
    answer ← call (client.nodes.get_node r.node)
    with_node origin answer

  unfoldable pub reconcile : NamespacedName → Eff S Turn
  unfolding restore_node apply_policy
  reconcile req = do answer ← call (client.get_policy req); with_policy answer

  -- `mapFn` of addWatchNPUNode: the policies to reconcile after a change of the node.
  abbrev requests : String → Fallible NpuNodePolicy → List NamespacedName
  requests name (done policy) = record { namespace = ""; name = name } ∷ []
  requests name (failed e) = []

  abbrev request_policy : String → Eff S (List NamespacedName)
  request_policy name = do
    answer ← call (client.get_policy (record { namespace = ""; name = name }))
    pure (requests name answer)

  abbrev request_labelled : Option String → Eff S (List NamespacedName)
  request_labelled (some name) = request_policy name
  request_labelled none = if r.npu_policy == "" then pure [] else request_policy r.npu_policy

  abbrev requests_of : Fallible Node → Eff S (List NamespacedName)
  requests_of (failed e) = pure []
  requests_of (done node) = request_labelled (get npu_mode_managed_by_label node.labels)

  unfoldable pub map_fn : Eff S (List NamespacedName)
  map_fn = do answer ← call (client.nodes.get_node r.node); requests_of answer
