-- ===== src/Npu/Protocol.antt =====
-- The controller and a node's daemon during the deletion of a policy: ReleaseNodes of
-- internal/controller/npunodepolicy_controller.go, and then Reconcile of npuconfig_controller.go.
use mathlib.Core.Path.{subst}
use mathlib.Core.List.{Memᴰ}
use accelerator_config_manag.Prelude.{
  String, Bool, true, false, Option, none, some, List, [], ◌∷◌, ◌≡◌, refl, sym, ◌∙◌, ◌==◌,
  Bool-cases, inl, inr,
}
use accelerator_config_manag.Prelude.Dict.{Dict, lookup}
use accelerator_config_manag.Prelude.GoMap.{GoMap, made, get}
use accelerator_config_manag.Prelude.Run.{ok}
use accelerator_config_manag.Api.Meta.{Node, NamespacedName, done}
use accelerator_config_manag.Api.Npu.{NpuNodePolicy}
use accelerator_config_manag.Labels.{text_of}
use accelerator_config_manag.Common.Client.Labelled.{
  IsLabelled, IsFresh, AllFresh, AllHave, same_label,
}
use accelerator_config_manag.Common.Filter.Laws.{UniqueNames}
use accelerator_config_manag.Common.Outcome.{finish}
use accelerator_config_manag.Npu.Names.{
  npu_mode_managed_by_label, npu_config_state_label, npu_config_state_label_value_restored,
}
use accelerator_config_manag.Npu.Controls.Released.{
  released_npu_label, released_npu_label-managed, released_npu_label-state,
}
use accelerator_config_manag.Npu.Nodes.{is_restored, release_nodes}
use accelerator_config_manag.Npu.Nodes.Unrestored.{unrestored, is_some_node}
use accelerator_config_manag.Npu.Nodes.Release.{npu_release_nodes_lem}
use accelerator_config_manag.Npu.External.{NpuClient}
use accelerator_config_manag.Npu.Daemon.{NpuConfigReconciler, reconcile}
use accelerator_config_manag.Npu.Daemon.Laws.Restored.{reconcile-restored}

AllHave-Mem :
    {S : Type 0} (labels_at : String → S → GoMap String)
    (wanted : String → Option String → Option String) (s : S) (nodes : List Node) (node : Node)
    → AllHave labels_at wanted s nodes
    → Memᴰ node nodes
    → (k : String) → get k (labels_at node.name s) ≡ wanted k (get k node.labels)
AllHave-Mem labels_at wanted s [] node a m k = elim m [ ]
AllHave-Mem labels_at wanted s (n ∷ nodes) node (a, rest) (Memᴰ.head e) k = rw e (a k)
AllHave-Mem labels_at wanted s (n ∷ nodes) node (a, rest) (Memᴰ.tail m) k =
    AllHave-Mem labels_at wanted s nodes node rest m k

unrestored-Mem :
    (nodes : List Node) (node : Node)
    → is_restored node ≡ false
    → Memᴰ node nodes
    → Memᴰ node (unrestored nodes)
unfolding unrestored
unrestored-Mem [] node r m = elim m [ ]
unrestored-Mem (n ∷ nodes) node r (Memᴰ.head e) = rw (← e, r) (Memᴰ.head refl)
unrestored-Mem (n ∷ nodes) node r (Memᴰ.tail m) = elim (Bool-cases (is_restored n)) [
  | inl q ↦ rw q (unrestored-Mem nodes node r m)
  | inr q ↦ rw q (Memᴰ.tail (unrestored-Mem nodes node r m))
]

unrestored-some : (nodes : List Node) (node : Node) → Memᴰ node nodes → is_some_node nodes ≡ true
unrestored-some [] node m = elim m [ ]
unrestored-some (n ∷ nodes) node m = refl

unrestored_label :
    (label : Option String)
    → (text_of label == npu_config_state_label_value_restored) ≡ false
    → same_label label (some npu_config_state_label_value_restored) ≡ false
unrestored_label none h = refl
unrestored_label (some v) h = h

module _ {S : Type 0} (client : NpuClient S) (labels_at : String → S → GoMap String)
    (L : IsLabelled client.nodes labels_at) (r : NpuConfigReconciler) where
  -- The nodes of a policy have different names and were read as they stand on the server, one of
  -- them is not restored, and ReleaseNodes returns no error. Later, while the labels of that node are
  -- still as they were left, the daemon reads the node as it stands there, and its reconciliation
  -- ends without an error, whatever policy it is for. Then ReleaseNodes has asked for another round,
  -- the daemon has forgotten the policy, and the node, read as it stands now, is restored.
  pub release_nodes-reconcile :
      (nodes : List Node) (node : Node) (requeue : Bool) (s t : S)
      → UniqueNames nodes
      → AllFresh labels_at s nodes
      → Memᴰ node nodes
      → is_restored node ≡ false
      → release_nodes client.nodes nodes s ≡ (ok (requeue, none), t)
      → (req : NamespacedName) (origin : NpuNodePolicy) (d : Dict String) (u u1 u2 t' : S)
        (r'' : NpuConfigReconciler)
      → client.get_policy req u ≡ (done origin, u1)
      → client.nodes.get_node r.node u1 ≡ (done (record { name = node.name; labels = made d }), u2)
      → IsFresh labels_at u2 (record { name = node.name; labels = made d })
      → ((k : String) → get k (labels_at node.name u2) ≡ get k (labels_at node.name t))
      → reconcile client r req u ≡ (ok (r'', finish), t')
      → (requeue ≡ true)
        × (r''.npu_policy ≡ "")
        × ((n : Node) → n.name ≡ node.name → IsFresh labels_at t' n → is_restored n ≡ true)
  release_nodes-reconcile nodes node requeue s t unique fresh m r0 e req origin d u u1 u2 t' r'' g1
        g2 f kept e' =
      let (waits, have, others) =
        npu_release_nodes_lem client.nodes labels_at L nodes requeue s t unique fresh e in
      let m' = unrestored-Mem nodes node r0 m in
      let at_d : (k : String) → lookup k d ≡ released_npu_label k (get k node.labels) = λ k.
        sym (f k)
        ∙ kept k
        ∙ AllHave-Mem labels_at released_npu_label t (unrestored nodes) node have m' k in
      let gone : lookup npu_mode_managed_by_label d ≡ none =
        at_d npu_mode_managed_by_label ∙ released_npu_label-managed _ in
      let state : lookup npu_config_state_label d ≡ get npu_config_state_label node.labels =
        at_d npu_config_state_label ∙ released_npu_label-state _ in
      let (forgotten, now) =
        reconcile-restored client labels_at L r req origin node.name d u u1 u2 t' r'' g1 g2 f
          (rw gone refl) e' in
      let written : get npu_config_state_label (labels_at node.name t')
          ≡ some npu_config_state_label_value_restored =
        now ∙ rw (state, unrestored_label (get npu_config_state_label node.labels) r0) refl in
      (
        waits ∙ unrestored-some (unrestored nodes) node m',
        forgotten,
        (λ n named fresh'.
            let here : get npu_config_state_label n.labels
                ≡ some npu_config_state_label_value_restored =
              sym (fresh' npu_config_state_label)
              ∙ subst
                  (λ x.
                    get npu_config_state_label (labels_at x t')
                    ≡ some npu_config_state_label_value_restored)
                  (sym named) written in
            rw here refl),
      )
