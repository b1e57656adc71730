-- ===== src/Npu/Daemon/Laws.antt =====
-- What a reconciliation of the daemon leaves in the state label of its node.
pub mod Restored
use accelerator_config_manag.Prelude.{
  String, true, Option, none, some, ◌≡◌, refl, ap, ◌∙◌, inl, inr, arith, eq_iff, eq_refl,
  if◌then◌else◌,
}
use accelerator_config_manag.Prelude.Dict.{Dict, lookup, insert, lookup-insert}
use accelerator_config_manag.Prelude.GoMap.{GoMap, nil_map, made, get}
use accelerator_config_manag.Prelude.Run.{ok}
use accelerator_config_manag.Api.Meta.{
  Node, NamespacedName, is_zero, Fallible, done, failed, Fallible-cases,
}
use accelerator_config_manag.Api.Npu.{NpuNodePolicy}
use accelerator_config_manag.Labels.{Labels}
use accelerator_config_manag.Common.Outcome.{finish}
use accelerator_config_manag.Common.Client.Labelled.{IsLabelled, IsFresh, merged, same_label}
use accelerator_config_manag.Npu.Names.{
  npu_mode_managed_by_label, npu_config_state_label, npu_config_state_label_value_in_progress,
  npu_config_state_label_value_success,
}
use accelerator_config_manag.Npu.External.{NpuClient}
use accelerator_config_manag.Npu.Daemon.{
  NpuConfigReconciler, write_state, apply_policy, reconcile, patched,
}

module _ {S : Type 0} (client : NpuClient S) (labels_at : String → S → GoMap String)
    (L : IsLabelled client.nodes labels_at) (r : NpuConfigReconciler) where
  -- A node whose labels the daemon writes.
  abbrev labelled : Node → String → Dict String → Node
  labelled node state d = record {
    name = node.name;
    labels = made (insert npu_config_state_label state d);
  }

  -- `patched` is a success only for an answer.
  patched_finish :
      (r' r'' : NpuConfigReconciler) (f : Fallible Node) (t t' : S)
      → patched client r r' f t ≡ (ok (r'', finish), t')
      → (a : Node) × (f ≡ done a) × (t ≡ t')
  patched_finish r' r'' (done a) t t' e = (a, refl, ap (λ x. x.1) e)
  patched_finish r' r'' (failed x) t t' e = ground arith

  -- A state that has been written is on the server, as far as the patch speaks of it.
  write_state-state :
      (base : Node) (name : String) (labels : Labels) (state : String)
      (r' r'' : NpuConfigReconciler) (t t' : S)
      → write_state client r base (record { name = name; labels = labels }) state r' t
        ≡ (ok (r'', finish), t')
      → get npu_config_state_label (labels_at name t')
        ≡ merged
            (get npu_config_state_label base.labels)
            (some state)
            (get npu_config_state_label (labels_at name t))
  unfolding write_state
  write_state-state base name nil_map state r' r'' t t' e = cc
  write_state-state base name (made d) state r' r'' t t' e =
      let n : Node = record {
        name = name;
        labels = made (insert npu_config_state_label state d);
      } in
      let (a, p, q) =
        patched_finish r' r'' (client.nodes.patch_node base n t).0
          (client.nodes.patch_node base n t).1 t' e in
      rw (← q)
        (L.patched base n a t p name npu_config_state_label ∙ rw (eq_refl name, lookup-insert))

  -- The label that the first patch leaves: "in-progress", also where it stood there before.
  pub in_progress-merged :
      (old : Option String)
      → merged old (some npu_config_state_label_value_in_progress) old
        ≡ some npu_config_state_label_value_in_progress
  in_progress-merged none = refl
  in_progress-merged (some v) = ground (arith, eq_iff v npu_config_state_label_value_in_progress)

  pub merged_self : (o c : Option String) → merged o o c ≡ c
  merged_self none c = refl
  merged_self (some v) c = rw (eq_refl v)

  -- After the first patch.
  module _ (origin : NpuNodePolicy) (name : String) (d : Dict String) (t : S)
      (fresh : IsFresh labels_at t (record { name = name; labels = made d })) where
    abbrev read : Node
    read = record { name = name; labels = made d }

    abbrev first : Node
    first = record {
      name = name;
      labels = made (insert npu_config_state_label npu_config_state_label_value_in_progress d);
    }

    abbrev t1 : S
    t1 = (client.nodes.patch_node read first t).1

    after_first :
        (a : Node)
        → (client.nodes.patch_node read first t).0 ≡ done a
        → (get npu_config_state_label (labels_at name t1)
            ≡ some npu_config_state_label_value_in_progress)
          × (a.name ≡ name)
          × (get npu_mode_managed_by_label a.labels ≡ lookup npu_mode_managed_by_label d)
    after_first a p = (
      L.patched read first a t p name npu_config_state_label
          ∙ rw (eq_refl name, lookup-insert, fresh npu_config_state_label)
              (in_progress-merged (lookup npu_config_state_label d)),
      (L.answered read first a t p).0,
      (L.answered read first a t p).1 npu_mode_managed_by_label
          ∙ L.patched read first a t p name npu_mode_managed_by_label
          ∙ rw (eq_refl name, lookup-insert, merged_self) (fresh npu_mode_managed_by_label),
    )

    applied :
        (a : Node) (r'' : NpuConfigReconciler) (t' : S)
        → (client.nodes.patch_node read first t).0 ≡ done a
        → apply_policy client r read a t1 ≡ (ok (r'', finish), t')
        → get npu_config_state_label (labels_at name t')
          ≡ merged
              (lookup npu_config_state_label d)
              (some npu_config_state_label_value_success)
              (some npu_config_state_label_value_in_progress)
    unfolding apply_policy
    applied a r'' t' p e =
        let (state, named, _) = after_first a p in
        rw (← named) (
          write_state-state read a.name a.labels npu_config_state_label_value_success r r'' t1 t' e
          ∙ rw (named, state))

  -- The node is managed by a policy that is not being deleted, the daemon has read it as it stands
  -- on the server, and its reconciliation ends without an error. Then the state label is "success",
  -- unless the node had that label when it was read: then it is left at "in-progress", since the last
  -- patch is made against the node as it was read, and says nothing of a label that is as it was.
  pub reconcile-state :
      (req : NamespacedName) (origin : NpuNodePolicy) (name : String) (d : Dict String)
      (s s1 t t' : S) (r'' : NpuConfigReconciler)
      → client.get_policy req s ≡ (done origin, s1)
      → client.nodes.get_node r.node s1 ≡ (done (record { name = name; labels = made d }), t)
      → IsFresh labels_at t (record { name = name; labels = made d })
      → is_zero origin.metadata.deletion_timestamp ≡ true
      → lookup npu_mode_managed_by_label d ≡ some origin.metadata.name
      → reconcile client r req s ≡ (ok (r'', finish), t')
      → get npu_config_state_label (labels_at name t') ≡ (
          if same_label
            (lookup npu_config_state_label d)
            (some npu_config_state_label_value_success)
          then some npu_config_state_label_value_in_progress
          else some npu_config_state_label_value_success)
  unfolding reconcile
  reconcile-state req origin name d s s1 t t' r'' g1 g2 fresh alive managed e =
      let e1 = rw g1 at e in
      let e2 = rw g2 at e1 in
      elim (Fallible-cases
        (client.nodes.patch_node (read origin name d t fresh) (first origin name d t fresh) t).0) [
          | inl (a, p) ↦
              let e3 = rw p at e2 in
              let (_, _, m) = after_first origin name d t fresh a p in
              let e4 = rw (m, managed, alive, eq_refl origin.metadata.name) at e3 in
              applied origin name d t fresh a r'' t' p e4
          | inr (x, p) ↦ let e3 = rw p at e2 in cc
        ]
