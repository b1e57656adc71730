-- ===== src/Npu/Daemon/Laws/Restored.antt =====
-- Reconciliations of the daemon for a node that is to be restored, and for a policy that is not the
-- node's.
use accelerator_config_manag.Prelude.{
  String, refl, Bool, Bool-cases, eq_iff, true, false, is_some, ◌&&◌, ◌==◌, sym, Option-cases, some,
  ◌≡◌, ap, ◌∙◌, inl, inr, arith, if◌then◌else◌,
}
use accelerator_config_manag.Prelude.Dict.{Dict, lookup, insert, lookup-insert}
use accelerator_config_manag.Prelude.GoMap.{GoMap, nil_map, made, get}
use accelerator_config_manag.Prelude.Run.{ok, ok-injective}
use accelerator_config_manag.Api.Meta.{
  Node, NamespacedName, is_zero, Fallible, done, failed, Fallible-cases,
}
use accelerator_config_manag.Api.Npu.{NpuNodePolicy}
use accelerator_config_manag.Labels.{Labels}
use accelerator_config_manag.Common.Outcome.{Outcome, finish, fail}
use accelerator_config_manag.Common.Client.Labelled.{IsLabelled, IsFresh, merged, same_label}
use accelerator_config_manag.Npu.Names.{
  npu_mode_managed_by_label, npu_config_state_label, npu_config_state_label_value_in_progress,
  npu_config_state_label_value_restored,
}
use accelerator_config_manag.Npu.External.{NpuClient}
use accelerator_config_manag.Npu.Daemon.{
  NpuConfigReconciler, write_state, restore_node, reconcile, patched,
}
use accelerator_config_manag.Npu.Daemon.Laws.{
  write_state-state, read, first, t1, after_first, in_progress-merged, merged_self,
}

-- The outcome of a reconciliation that ends with the first patch.
abbrev pub ended : Fallible Node → Outcome
ended (done node) = finish
ended (failed e) = fail e

abbrev pub is_patched : Fallible Node → Bool
is_patched (done node) = true
is_patched (failed e) = false

module _ {S : Type 0} (client : NpuClient S) (labels_at : String → S → GoMap String)
    (L : IsLabelled client.nodes labels_at) (r : NpuConfigReconciler) where
  patched-reconciler :
      (r' r'' : NpuConfigReconciler) (f : Fallible Node) (t t' : S)
      → patched client r r' f t ≡ (ok (r'', finish), t')
      → r'' ≡ r'
  patched-reconciler r' r'' (done a) t t' e = sym (ap (λ x. x.0) (ok-injective (ap (λ x. x.0) e)))
  patched-reconciler r' r'' (failed x) t t' e = ground arith

  -- A state that has been written comes with its reconciler.
  write_state-reconciler :
      (base : Node) (name : String) (labels : Labels) (state : String)
      (r' r'' : NpuConfigReconciler) (t t' : S)
      → write_state client r base (record { name = name; labels = labels }) state r' t
        ≡ (ok (r'', finish), t')
      → r'' ≡ r'
  unfolding write_state
  write_state-reconciler base name nil_map state r' r'' t t' e = cc
  write_state-reconciler base name (made d) state r' r'' t t' e = patched-reconciler r' r'' _ _ t' e

  module _ (origin : NpuNodePolicy) (name : String) (d : Dict String) (t : S)
      (fresh : IsFresh labels_at t (record { name = name; labels = made d })) where
    restored :
        (a : Node) (r'' : NpuConfigReconciler) (t' : S)
        → (client.nodes.patch_node
            (read client labels_at L r origin name d t fresh)
            (first client labels_at L r origin name d t fresh)
            t).0
          ≡ done a
        → restore_node client r
            (read client labels_at L r origin name d t fresh)
            a
            (t1 client labels_at L r origin name d t fresh)
          ≡ (ok (r'', finish), t')
        → (r''.npu_policy ≡ "")
          × (get npu_config_state_label (labels_at name t')
              ≡ merged
                  (lookup npu_config_state_label d)
                  (some npu_config_state_label_value_restored)
                  (some npu_config_state_label_value_in_progress))
    unfolding restore_node
    restored a r'' t' p e =
        let (state, named, _) = after_first client labels_at L r origin name d t fresh a p in
        (
          ap (λ x. x.npu_policy) (write_state-reconciler _ a.name a.labels _ _ r'' _ t' e),
          rw (← named) (
              write_state-state client labels_at L r _ a.name a.labels
                npu_config_state_label_value_restored _ r'' _ t' e
              ∙ rw (named, state)),
        )

  -- The daemon has read its node as it stands on the server, the node is not managed by a policy or
  -- the policy is being deleted, and the reconciliation ends without an error. Then the daemon has
  -- forgotten the policy and the state label is "restored", unless the node had that label when it
  -- was read: then it is left at "in-progress".
  pub reconcile-restored :
      (req : NamespacedName) (origin : NpuNodePolicy) (name : String) (d : Dict String)
      (s s1 t t' : S) (r'' : NpuConfigReconciler)
      → client.get_policy req s ≡ (done origin, s1)
      → client.nodes.get_node r.node s1 ≡ (done (record { name = name; labels = made d }), t)
      → IsFresh labels_at t (record { name = name; labels = made d })
      → (is_some (lookup npu_mode_managed_by_label d) && is_zero origin.metadata.deletion_timestamp)
        ≡ false
      → reconcile client r req s ≡ (ok (r'', finish), t')
      → (r''.npu_policy ≡ "")
        × (get npu_config_state_label (labels_at name t') ≡ (
            if same_label
              (lookup npu_config_state_label d)
              (some npu_config_state_label_value_restored)
            then some npu_config_state_label_value_in_progress
            else some npu_config_state_label_value_restored))
  unfolding reconcile
  reconcile-restored req origin name d s s1 t t' r'' g1 g2 fresh gone e =
      let e1 = rw g1 at e in
      let e2 = rw g2 at e1 in
      elim (Fallible-cases
        (client.nodes.patch_node (read client labels_at L r origin name d t fresh)
          (first client labels_at L r origin name d t fresh) t).0) [
            | inl (a, p) ↦
                let e3 = rw p at e2 in
                let (_, _, m) = after_first client labels_at L r origin name d t fresh a p in
                elim (Option-cases (lookup npu_mode_managed_by_label d)) [
                  | inl h ↦ restored origin name d t fresh a r'' t' p (rw (m, h) at e3)
                  | inr (v, h) ↦
                      let dead : is_zero origin.metadata.deletion_timestamp ≡ false =
                        ground arith in
                      restored origin name d t fresh a r'' t' p (rw (m, h, dead) at e3)
                ]
            | inr (x, p) ↦ let e3 = rw p at e2 in cc
          ]

  module _ (origin : NpuNodePolicy) (name : String) (d : Dict String) (t : S)
      (fresh : IsFresh labels_at t (record { name = name; labels = made d })) where
    -- The first patch writes one label of one node.
    first-labels :
        (answer : Fallible Node) (other k : String)
        → (client.nodes.patch_node
            (read client labels_at L r origin name d t fresh)
            (first client labels_at L r origin name d t fresh)
            t).0
          ≡ answer
        → get k (labels_at other (t1 client labels_at L r origin name d t fresh)) ≡ (
            if is_patched answer && name == other && npu_config_state_label == k
            then some npu_config_state_label_value_in_progress
            else get k (labels_at other t))
    first-labels (failed e) other k p = L.patch_failed _ _ e t p other k
    first-labels (done a) other k p = elim (Bool-cases (name == other)) [
      | inl same ↦
          let here : get k (labels_at other t) ≡ lookup k d =
            rw (← (eq_iff name other).0 same) (fresh k) in
          L.patched _ _ a t p other k
          ∙ rw (same, here, lookup-insert)
              (elim (Bool-cases (npu_config_state_label == k)) [
                | inl e ↦ rw e (in_progress-merged client labels_at L r (lookup k d))
                | inr e ↦ rw e (merged_self client labels_at L r (lookup k d) (lookup k d))
              ])
      | inr differ ↦ L.patched _ _ a t p other k ∙ rw differ refl
    ]

  -- The node is managed by another policy than the one that is reconciled, which is not being
  -- deleted, and the daemon has read the node as it stands on the server. Then the reconciliation
  -- makes one patch and ends with it, with its reconciler as it was and without a requeue: with
  -- success where the patch succeeds, and with the patch's error where it fails. It sets the node's
  -- state label to "in-progress" if the patch succeeds, and leaves every other label of every node
  -- alone.
  pub reconcile-other_policy :
      (req : NamespacedName) (origin : NpuNodePolicy) (name policy : String) (d : Dict String)
      (s s1 t t' : S) (answer : Fallible Node)
      → client.get_policy req s ≡ (done origin, s1)
      → client.nodes.get_node r.node s1 ≡ (done (record { name = name; labels = made d }), t)
      → IsFresh labels_at t (record { name = name; labels = made d })
      → is_zero origin.metadata.deletion_timestamp ≡ true
      → lookup npu_mode_managed_by_label d ≡ some policy
      → (origin.metadata.name == policy) ≡ false
      → client.nodes.patch_node
          (record { name = name; labels = made d })
          (record {
            name = name;
            labels =
                made (insert npu_config_state_label npu_config_state_label_value_in_progress d);
          })
          t
        ≡ (answer, t')
      → (reconcile client r req s ≡ (ok (r, ended answer), t'))
        × ((other k : String)
            → get k (labels_at other t') ≡ (
                if is_patched answer && name == other && npu_config_state_label == k
                then some npu_config_state_label_value_in_progress
                else get k (labels_at other t)))
  unfolding reconcile
  reconcile-other_policy req origin name policy d s s1 t t' (failed e) g1 g2 fresh alive managed
        other p =
      (
        rw (g1, g2, p) refl,
        λ n k.
            rw (← ap (λ x. x.1) p)
              (first-labels origin name d t fresh (failed e) n k (ap (λ x. x.0) p)),
      )
  reconcile-other_policy req origin name policy d s s1 t t' (done a) g1 g2 fresh alive managed other
        p =
      let (_, _, m) = after_first client labels_at L r origin name d t fresh a (ap (λ x. x.0) p) in
      (
        rw (g1, g2, p, m, managed, alive, other) refl,
        λ n k.
            rw (← ap (λ x. x.1) p)
              (first-labels origin name d t fresh (done a) n k (ap (λ x. x.0) p)),
      )
