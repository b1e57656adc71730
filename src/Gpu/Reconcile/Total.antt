-- ===== src/Gpu/Reconcile/Total.antt =====
-- A reconciliation of the GPU controller does not panic.
use mathlib.Core.List.{Perm}
use accelerator_config_manag.Prelude.{
  String, Bool, true, not, ◌||◌, ◌==◌, none, some, is_some, List, ◌≡◌, refl, Bool-cases, inl, inr,
}
use accelerator_config_manag.Prelude.Dict.{Dict}
use accelerator_config_manag.Prelude.GoMap.{GoMap}
use accelerator_config_manag.Prelude.Run.{ok}
use accelerator_config_manag.Prelude.Eff.{Ends, >>=-Ends, Ends-eq-ok, Anything}
use accelerator_config_manag.Api.Foreign.{Foreign}
use accelerator_config_manag.Api.Meta.{Node, NamespacedName, Error, done, Fallible-cases, is_zero}
use accelerator_config_manag.Api.Gpu.{GpuNodePolicy}
use accelerator_config_manag.Api.Gpu.DeviceMode
use accelerator_config_manag.Common.Client.Labelled.{ListsLabelled}
use accelerator_config_manag.Common.Text.{string_in_array}
use accelerator_config_manag.Common.Filter.{filter_nodes}
use accelerator_config_manag.Common.Filter.Kept.{all, has_labels, filter_nodes-all}
use accelerator_config_manag.Common.Outcome.{Outcome}
use accelerator_config_manag.Gpu.Names.{release_finalizer_name}
use accelerator_config_manag.Gpu.Controls.{GpuModeManager, new_gpu_mode_manager}
use accelerator_config_manag.Gpu.Controls.Adopted.{IsWorkload, set_workload_config-IsWorkload}
use accelerator_config_manag.Gpu.Status.Laws.{init_made}
use accelerator_config_manag.Gpu.External.{Library, GpuClient}
use accelerator_config_manag.Gpu.Nodes.{adopt_nodes, update_nodes, release_nodes}
use accelerator_config_manag.Gpu.Nodes.Total.{
  ReadyWith, adopt_nodes-Ends, update_nodes-Ends, release_nodes-Ends,
}
use accelerator_config_manag.Gpu.ConfigMaps.Total.{ReadsData, KeepsData, Kept}
use accelerator_config_manag.Gpu.Reconcile.{
  setup_nodes, setup_mode, sync, register, reconcile, with_matched, setup_when_configured,
  with_policy, sync_registered, managed_selector, with_finalizer,
}
use accelerator_config_manag.Gpu.Reconcile.Ends.{write_status-Ends, finalize-Ends, setup_mode-Ends}

-- A MIG policy says which MIG devices it wants.
unfoldable pub is_admitted : {F : Foreign} → GpuNodePolicy F → Bool
is_admitted p = not (p.spec.mode == DeviceMode.mig) || is_some p.spec.mig_config

-- Every policy that the cluster answers is so.
pub record AnswersAdmitted {F : Foreign} {S : Type 0} (client : GpuClient F S) : Type 0 where
  pub read :
      (req : NamespacedName) (s : S) (p : GpuNodePolicy F)
      → (client.get_policy req s).0 ≡ done p
      → is_admitted p ≡ true
  pub updated :
      (q : GpuNodePolicy F) (s : S) (p : GpuNodePolicy F)
      → (client.update_policy q s).0 ≡ done p
      → is_admitted p ≡ true

module _ {F : Foreign} {S : Type 0} (lib : Library F) (client : GpuClient F S)
    (namespace : String) where
  module _ (Plugin Mig : S → Type 0) (labelled : ListsLabelled client.nodes)
      (data_ : ReadsData lib client namespace Plugin Mig)
      (keeps : KeepsData client Plugin Mig) where
    module _ (visit : Dict Node → Dict Node) (visits : (m : Dict Node) → Perm (visit m) m) where
      setup_nodes-Ends :
          (req : NamespacedName) (origin : GpuNodePolicy F) (m : GpuModeManager F)
          (claimed matched : List Node) (s : S)
          → IsWorkload m.workload_config_name
          → all has_labels claimed ≡ true
          → all has_labels matched ≡ true
          → Ends Anything (setup_nodes lib client namespace visit req origin m claimed matched s)
      unfolding setup_nodes
      setup_nodes-Ends req origin m claimed matched s w h k =
          let (fa, fm, fr) = filter_nodes-all has_labels visit visits claimed matched h k in
          let f = filter_nodes visit claimed matched in
          let (d, e) = init_made m claimed in
          rw e (
            >>=-Ends ReadyWith Anything (adopt_nodes client.nodes _ f.adopt) _ s
              (adopt_nodes-Ends client.nodes f.adopt _ s (w, refl) fa)
              (λ a t r.
                >>=-Ends ReadyWith Anything (update_nodes client.nodes a.0 f.match_) _ t
                  (update_nodes-Ends client.nodes f.match_ a.0 t r fm)
                  (λ u t' r'.
                    >>=-Ends Anything Anything (release_nodes client.nodes f.release) _ t'
                      (release_nodes-Ends client.nodes f.release t' fr)
                      (λ x t'' r''.
                        write_status-Ends lib client namespace req origin u.0.instance_ _ t''))))

      setup_when_configured-Ends :
          (req : NamespacedName) (origin : GpuNodePolicy F) (claimed matched : List Node)
          (c : GpuModeManager F × Error) (s : S)
          → IsWorkload c.0.workload_config_name
          → all has_labels claimed ≡ true
          → all has_labels matched ≡ true
          → Ends Anything
              (setup_when_configured lib client namespace visit req origin claimed matched c s)
      setup_when_configured-Ends req origin claimed matched (m, some e) s w h k = tt
      setup_when_configured-Ends req origin claimed matched (m, none) s w h k =
          setup_nodes-Ends req origin m claimed matched s w h k

      with_matched_done-Ends :
          (req : NamespacedName) (origin : GpuNodePolicy F) (claimed matched : List Node) (s : S)
          → is_admitted origin ≡ true
          → all has_labels claimed ≡ true
          → all has_labels matched ≡ true
          → Plugin s
          → Mig s
          → Ends Anything
              (with_matched lib client namespace visit req origin claimed (done matched) s)
      unfolding is_admitted new_gpu_mode_manager
      with_matched_done-Ends req origin claimed matched s a h k p i =
          let m = new_gpu_mode_manager origin in
          >>=-Ends (Kept m) Anything (setup_mode lib client namespace m) _ s
            (setup_mode-Ends lib client namespace Plugin Mig labelled data_ keeps m s a p i)
            (λ c t (same, w, o).
              setup_when_configured-Ends req origin claimed matched c t
                (rw w (set_workload_config-IsWorkload origin.spec.mode)) h k)

      with_matched-Ends :
          (req : NamespacedName) (origin : GpuNodePolicy F) (claimed : List Node)
          (selector : GoMap String) (s : S)
          → is_admitted origin ≡ true
          → all has_labels claimed ≡ true
          → Plugin s
          → Mig s
          → Ends Anything (
              with_matched lib client namespace visit req origin claimed
                (client.nodes.list_nodes selector s).0
                (client.nodes.list_nodes selector s).1)
      with_matched-Ends req origin claimed selector s a h p i =
          elim (Fallible-cases (client.nodes.list_nodes selector s).0) [
            | inl (nodes, e) ↦ rw e (
                with_matched_done-Ends req origin claimed nodes
                  (client.nodes.list_nodes selector s).1 a h (labelled selector s nodes e)
                  (keeps.listed_nodes selector s p i).0 (keeps.listed_nodes selector s p i).1)
            | inr (x, e) ↦ rw e tt
          ]

      sync-Ends :
          (req : NamespacedName) (origin : GpuNodePolicy F) (s : S)
          → is_admitted origin ≡ true
          → Plugin s
          → Mig s
          → Ends Anything (sync lib client namespace visit req origin s)
      unfolding sync
      sync-Ends req origin s a p i =
          elim (Fallible-cases (client.nodes.list_nodes origin.spec.node_selector s).0) [
            | inl (nodes, e) ↦ rw e (
                with_matched-Ends req origin nodes (managed_selector origin.metadata.name) _ a
                  (labelled origin.spec.node_selector s nodes e)
                  (keeps.listed_nodes origin.spec.node_selector s p i).0
                  (keeps.listed_nodes origin.spec.node_selector s p i).1)
            | inr (x, e) ↦ rw e tt
          ]

      module _ (admitted : AnswersAdmitted client) where
        registered-Ends :
            (req : NamespacedName) (q : GpuNodePolicy F) (s : S)
            → Plugin s
            → Mig s
            → Ends Anything (
                sync_registered lib client namespace visit req
                  (client.update_policy q s).0
                  (client.update_policy q s).1)
        registered-Ends req q s p i = elim (Fallible-cases (client.update_policy q s).0) [
          | inl (origin, e) ↦ rw e (
              sync-Ends req origin _ (admitted.updated q s origin e)
                (keeps.updated_policy q s p i).0 (keeps.updated_policy q s p i).1)
          | inr (x, e) ↦ rw e tt
        ]

        register-Ends :
            (req : NamespacedName) (origin : GpuNodePolicy F) (s : S)
            → is_admitted origin ≡ true
            → Plugin s
            → Mig s
            → Ends Anything (register lib client namespace visit req origin s)
        unfolding register
        register-Ends req origin s a p i =
            elim (Bool-cases (string_in_array release_finalizer_name origin.metadata.finalizers)) [
              | inl e ↦ rw e (sync-Ends req origin s a p i)
              | inr e ↦
                  rw e
                    (registered-Ends req (with_finalizer lib client namespace visit origin) s p i)
            ]

        with_policy-Ends :
            (req : NamespacedName) (origin : GpuNodePolicy F) (s : S)
            → is_admitted origin ≡ true
            → Plugin s
            → Mig s
            → Ends Anything (with_policy lib client namespace visit req (done origin) s)
        with_policy-Ends req origin s a p i =
            elim (Bool-cases (is_zero origin.metadata.deletion_timestamp)) [
              | inl e ↦ rw e (register-Ends req origin s a p i)
              | inr e ↦
                  rw e (
                    finalize-Ends lib client namespace Plugin Mig labelled data_ keeps origin s p i)
            ]

        policy_read-Ends :
            (req : NamespacedName) (s : S)
            → Plugin s
            → Mig s
            → Ends Anything (
                with_policy lib client namespace visit req
                  (client.get_policy req s).0
                  (client.get_policy req s).1)
        policy_read-Ends req s p i = elim (Fallible-cases (client.get_policy req s).0) [
          | inl (origin, e) ↦ rw e (
              with_policy-Ends req origin _ (admitted.read req s origin e)
                (keeps.got_policy req s p i).0 (keeps.got_policy req s p i).1)
          | inr (x, e) ↦ rw e tt
        ]

        -- A range loop visits every entry once, the listed nodes have labels, and the policies of the
        -- MIG mode have a `migConfig`. When the reconciliation starts, the ConfigMaps of the device
        -- plugin and of mig-parted, where they can be read, have data, and the `config.yaml` of
        -- mig-parted's, if YAML can read it, has a `mig-configs`; no call changes them but the patches
        -- of the ConfigMaps, and none of another ConfigMap changes mig-parted's. Then a reconciliation
        -- of the GPU controller comes to an outcome: it does not panic, whatever else the cluster
        -- answers.
        pub gpu_reconcile-total :
            (req : NamespacedName) (s : S)
            → Plugin s
            → Mig s
            → (out : Outcome) × (t : S) × (reconcile lib client namespace visit req s ≡ (ok out, t))
        unfolding reconcile
        gpu_reconcile-total req s p i =
            let (out, t, e, _) =
              Ends-eq-ok Anything (reconcile lib client namespace visit req s)
                (policy_read-Ends req s p i) in
            (out, t, e)
