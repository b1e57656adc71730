-- ===== src/Npu/Reconcile/Total.antt =====
-- A reconciliation of the NPU controller does not panic.
use mathlib.Core.List.{Perm}
use accelerator_config_manag.Prelude.{
  String, Bool, true, false, none, some, List, ◌≡◌, refl, Bool-cases, inl, inr,
}
use accelerator_config_manag.Prelude.Dict.{Dict}
use accelerator_config_manag.Prelude.GoMap.{GoMap}
use accelerator_config_manag.Prelude.Run.{ok}
use accelerator_config_manag.Prelude.Eff.{pure, Ends, >>=-Ends, Ends-eq-ok, Anything}
use accelerator_config_manag.Api.Meta.{
  Node, NamespacedName, Error, Fallible, done, failed, Fallible-cases, is_zero,
}
use accelerator_config_manag.Api.Npu.{NpuNodePolicy}
use accelerator_config_manag.Common.Client.Labelled.{ListsLabelled}
use accelerator_config_manag.Common.DeepEqual.{deep_equal}
use accelerator_config_manag.Common.Text.{string_in_array, remove_string}
use accelerator_config_manag.Common.Filter.{filter_nodes}
use accelerator_config_manag.Common.Filter.Kept.{all, has_labels, filter_nodes-all}
use accelerator_config_manag.Common.Outcome.{Outcome, unless_wrapped}
use accelerator_config_manag.Gpu.Names.{release_finalizer_name}
use accelerator_config_manag.Npu.Status.Laws.{init_npu_node_policy_status_lem}
use accelerator_config_manag.Npu.External.{NpuClient}
use accelerator_config_manag.Npu.Nodes.{adopt_nodes, update_nodes, release_nodes}
use accelerator_config_manag.Npu.Nodes.Total.{
  ReadyWith, adopt_nodes-Ends, update_nodes-Ends, release_nodes-Ends,
}
use accelerator_config_manag.Npu.Reconcile.{
  write_status, setup_nodes, sync, register, finalize, drop_finalizer, reconcile, with_matched,
  finalize_nodes, after_release, with_policy, sync_registered, updated_policy,
  NpuNodeStatus-discrete,
}

module _ {S : Type 0} (client : NpuClient S) where
  unless_wrapped-Ends :
      (text : String) (err : Error) (outcome : Outcome) (s : S)
      → Ends Anything (unless_wrapped text err (pure outcome) s)
  unless_wrapped-Ends text none outcome s = tt
  unless_wrapped-Ends text (some e) outcome s = tt

  write_status-Ends :
      (req : NamespacedName) (origin policy : NpuNodePolicy) (requeue : Bool) (s : S)
      → Ends Anything (write_status client req origin policy requeue s)
  unfolding write_status
  write_status-Ends req origin policy requeue s =
      elim (Bool-cases
        (deep_equal NpuNodeStatus-discrete origin.status.nodes policy.status.nodes)) [
          | inl e ↦ rw e tt
          | inr e ↦ rw e (unless_wrapped-Ends _ (client.update_status policy s).0 _ _)
        ]

  updated_policy-Ends :
      (err : Error) (answer : Fallible NpuNodePolicy) (s : S)
      → Ends Anything (updated_policy client err answer s)
  updated_policy-Ends err (done policy) s = tt
  updated_policy-Ends err (failed e) s = tt

  drop_finalizer-Ends :
      (err : Error) (origin : NpuNodePolicy) (s : S)
      → Ends Anything (drop_finalizer client err origin s)
  unfolding drop_finalizer
  drop_finalizer-Ends err origin s =
      elim (Bool-cases (remove_string release_finalizer_name origin.metadata.finalizers).1) [
        | inl e ↦ rw e (updated_policy-Ends err _ _)
        | inr e ↦ rw e tt
      ]

  after_release-Ends :
      (origin : NpuNodePolicy) (c : Bool × Error) (s : S)
      → Ends Anything (after_release client origin c s)
  after_release-Ends origin (true, err) s = tt
  after_release-Ends origin (false, err) s = drop_finalizer-Ends err origin s

  finalize_nodes-Ends :
      (origin : NpuNodePolicy) (answer : Fallible (List Node)) (s : S)
      → Ends Anything (finalize_nodes client origin answer s)
  finalize_nodes-Ends origin (failed e) s = tt
  finalize_nodes-Ends origin (done nodes) s =
      >>=-Ends Anything Anything (release_nodes client.nodes nodes) _ s
        (release_nodes-Ends client.nodes nodes s) (λ c t h. after_release-Ends origin c t)

  finalize-Ends : (origin : NpuNodePolicy) (s : S) → Ends Anything (finalize client origin s)
  unfolding finalize
  finalize-Ends origin s =
      elim (Bool-cases (string_in_array release_finalizer_name origin.metadata.finalizers)) [
        | inl e ↦ rw e (finalize_nodes-Ends origin _ _)
        | inr e ↦ rw e tt
      ]

  module _ (visit : Dict Node → Dict Node) (visits : (m : Dict Node) → Perm (visit m) m) where
    setup_nodes-Ends :
        (req : NamespacedName) (origin : NpuNodePolicy) (claimed matched : List Node) (s : S)
        → all has_labels claimed ≡ true
        → all has_labels matched ≡ true
        → Ends Anything (setup_nodes client visit req origin claimed matched s)
    unfolding setup_nodes
    setup_nodes-Ends req origin claimed matched s c m =
        let (fa, fm, fr) = filter_nodes-all has_labels visit visits claimed matched c m in
        let f = filter_nodes visit claimed matched in
        let (d, e, _) = init_npu_node_policy_status_lem origin claimed in
        rw e (
          >>=-Ends ReadyWith Anything (adopt_nodes client.nodes _ f.adopt) _ s
            (adopt_nodes-Ends client.nodes f.adopt _ s refl fa)
            (λ a t h.
              >>=-Ends ReadyWith Anything (update_nodes client.nodes a.0 f.match_) _ t
                (update_nodes-Ends client.nodes f.match_ a.0 t h fm)
                (λ u t' h'.
                  >>=-Ends Anything Anything (release_nodes client.nodes f.release) _ t'
                    (release_nodes-Ends client.nodes f.release t')
                    (λ r t'' h''. write_status-Ends req origin u.0.instance_ r.0 t''))))

    module _ (labelled : ListsLabelled client.nodes) where
      with_matched-Ends :
          (req : NamespacedName) (origin : NpuNodePolicy) (claimed : List Node)
          (selector : GoMap String) (s : S)
          → all has_labels claimed ≡ true
          → Ends Anything (
              with_matched client visit req origin claimed
                (client.nodes.list_nodes selector s).0
                (client.nodes.list_nodes selector s).1)
      with_matched-Ends req origin claimed selector s c =
          elim (Fallible-cases (client.nodes.list_nodes selector s).0) [
            | inl (nodes, e) ↦
                rw e (setup_nodes-Ends req origin claimed nodes _ c (labelled selector s nodes e))
            | inr (x, e) ↦ rw e tt
          ]

      sync-Ends :
          (req : NamespacedName) (origin : NpuNodePolicy) (s : S)
          → Ends Anything (sync client visit req origin s)
      unfolding sync
      sync-Ends req origin s =
          elim (Fallible-cases (client.nodes.list_nodes origin.spec.node_selector s).0) [
            | inl (nodes, e) ↦ rw e (
                with_matched-Ends req origin nodes _ _
                  (labelled origin.spec.node_selector s nodes e))
            | inr (x, e) ↦ rw e tt
          ]

      sync_registered-Ends :
          (req : NamespacedName) (answer : Fallible NpuNodePolicy) (s : S)
          → Ends Anything (sync_registered client visit req answer s)
      sync_registered-Ends req (failed e) s = tt
      sync_registered-Ends req (done origin) s = sync-Ends req origin s

      register-Ends :
          (req : NamespacedName) (origin : NpuNodePolicy) (s : S)
          → Ends Anything (register client visit req origin s)
      unfolding register
      register-Ends req origin s =
          elim (Bool-cases (string_in_array release_finalizer_name origin.metadata.finalizers)) [
            | inl e ↦ rw e (sync-Ends req origin s)
            | inr e ↦ rw e (sync_registered-Ends req _ _)
          ]

      with_policy-Ends :
          (req : NamespacedName) (answer : Fallible NpuNodePolicy) (s : S)
          → Ends Anything (with_policy client visit req answer s)
      with_policy-Ends req (failed e) s = tt
      with_policy-Ends req (done origin) s =
          elim (Bool-cases (is_zero origin.metadata.deletion_timestamp)) [
            | inl e ↦ rw e (register-Ends req origin s)
            | inr e ↦ rw e (finalize-Ends origin s)
          ]

      -- Where a range loop visits every entry once and the listed nodes have labels, a
      -- reconciliation of the NPU controller always comes to an outcome: it does not panic, whatever
      -- the cluster answers.
      pub npu_reconcile-total :
          (req : NamespacedName) (s : S)
          → (out : Outcome) × (t : S) × (reconcile client visit req s ≡ (ok out, t))
      unfolding reconcile
      npu_reconcile-total req s =
          let (out, t, e, _) =
            Ends-eq-ok Anything (reconcile client visit req s)
              (with_policy-Ends req (client.get_policy req s).0 (client.get_policy req s).1) in
          (out, t, e)
