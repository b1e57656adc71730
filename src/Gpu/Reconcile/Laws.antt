-- ===== src/Gpu/Reconcile/Laws.antt =====
-- What a finished reconciliation of the GPU controller has gone through.
use accelerator_config_manag.Prelude.{
  String, Bool, true, false, not, ◌==◌, ◌||◌, Option, none, some, is_some, List, ◌≡◌, refl, ap, ◌∙◌,
  sym, Bool-cases, inl, inr, arith,
}
use accelerator_config_manag.Prelude.Dict.{Dict}
use accelerator_config_manag.Prelude.Run.{ok, ok-injective}
use accelerator_config_manag.Prelude.Eff.{Eff, lift, >>=-eq-ok}
use accelerator_config_manag.Api.Foreign.{Foreign}
use accelerator_config_manag.Api.Meta.{Node, NamespacedName, Error, done, Fallible-cases}
use accelerator_config_manag.Api.Gpu.{GpuNodePolicy}
use accelerator_config_manag.Common.Filter.{filter_nodes}
use accelerator_config_manag.Common.DeepEqual.{deep_equal}
use accelerator_config_manag.Common.Outcome.{Outcome, finish, set_up, unless_error, unless_wrapped}
use accelerator_config_manag.Gpu.Controls.{GpuModeManager}
use accelerator_config_manag.Gpu.Status.{init_gpu_node_policy_status}
use accelerator_config_manag.Gpu.Nodes.{adopt_nodes, update_nodes, release_nodes, revert_mig_nodes}
use accelerator_config_manag.Api.Gpu.DeviceMode
use accelerator_config_manag.Common.Text.{string_in_array}
use accelerator_config_manag.Gpu.Names.{release_finalizer_name}
use accelerator_config_manag.Gpu.Nodes.Laws.{all_mig_disabled, revert_mig_nodes_lem}
use accelerator_config_manag.Gpu.External.{Library, GpuClient}
use accelerator_config_manag.Gpu.ConfigMaps.{remove_device_plugin_config_map_data}
use accelerator_config_manag.Gpu.ConfigMaps.Mig.{remove_mig_config_map_data}
use accelerator_config_manag.Gpu.Reconcile.{
  setup_nodes, write_status, GpuNodeStatus-discrete, release_managed, drop_finalizer, finalize,
  finalize_nodes, managed_selector,
}

module _ {F : Foreign} {S : Type 0} (lib : Library F) (client : GpuClient F S)
    (namespace : String) where
  unless_error-finish :
      (err : Error) (rest : Eff S Outcome) (s s' : S)
      → unless_error err rest s ≡ (ok finish, s')
      → (err ≡ none) × (rest s ≡ (ok finish, s'))
  unless_error-finish none rest s s' e = (refl, e)
  unless_error-finish (some x) rest s s' e = cc

  unless_wrapped-finish :
      (text : String) (err : Error) (rest : Eff S Outcome) (s s' : S)
      → unless_wrapped text err rest s ≡ (ok finish, s')
      → (err ≡ none) × (rest s ≡ (ok finish, s'))
  unless_wrapped-finish text none rest s s' e = (refl, e)
  unless_wrapped-finish text (some x) rest s s' e = cc

  set_up-finish :
      (req : NamespacedName) (requeue : Bool) → set_up req requeue ≡ finish → requeue ≡ false
  set_up-finish req false e = refl
  set_up-finish req true e = cc

  write_status-finish :
      (req : NamespacedName) (origin policy : GpuNodePolicy F) (requeue : Bool) (s s' : S)
      → write_status lib client namespace req origin policy requeue s ≡ (ok finish, s')
      → requeue ≡ false
  unfolding write_status
  write_status-finish req origin policy requeue s s' e =
      elim (Bool-cases
        (deep_equal GpuNodeStatus-discrete origin.status.nodes policy.status.nodes)) [
          | inl q ↦
              let e1 = rw q at e in set_up-finish req requeue (ok-injective (ap (λ x. x.0) e1))
          | inr q ↦
              let e1 = rw q at e in
              let (n, e2) =
                unless_wrapped-finish "failed to update status, " (client.update_status policy s).0
                  _ _ s' e1 in
              set_up-finish req requeue (ok-injective (ap (λ x. x.0) e2))
        ]

  is_some-none : {A : Type 0} (o : Option A) → is_some o ≡ false → o ≡ none
  is_some-none none h = refl
  is_some-none (some x) h = cc

  without_error :
      {A : Type 0} (f : Eff S (A × Error)) (s t s' : S) (a : A × Error)
      → s ≡ t
      → a.1 ≡ none
      → f t ≡ (ok a, s')
      → f s ≡ (ok (a.0, none), s')
  without_error f s t s' a p n e = ap f p ∙ e ∙ (λ i. (ok (a.0, n i), s'))

  module _ (visit : Dict Node → Dict Node) where
    -- A reconciliation that gets to its nodes and ends with success has run, one after the other,
    -- AdoptNodes, UpdateNodes and ReleaseNodes on the three lists of FilterNodes, and none of them
    -- has returned an error.
    pub setup_nodes-finish :
        (req : NamespacedName) (origin : GpuNodePolicy F) (m : GpuModeManager F)
        (claimed matched : List Node) (s s' : S)
        → setup_nodes lib client namespace visit req origin m claimed matched s ≡ (ok finish, s')
        → (m1 : GpuModeManager F) × (m2 : GpuModeManager F) × (m3 : GpuModeManager F) × (s1 : S)
          × (s2 : S) × (s3 : S) × (init_gpu_node_policy_status m claimed ≡ ok m1)
          × (adopt_nodes client.nodes m1 (filter_nodes visit claimed matched).adopt s
              ≡ (ok (m2, none), s1))
          × (update_nodes client.nodes m2 (filter_nodes visit claimed matched).match_ s1
              ≡ (ok (m3, none), s2))
          × (release_nodes client.nodes (filter_nodes visit claimed matched).release s2
              ≡ (ok none, s3))
          × (write_status lib client namespace req origin m3.instance_ false s3 ≡ (ok finish, s'))
    unfolding setup_nodes
    setup_nodes-finish req origin m claimed matched s s' e =
        let f = filter_nodes visit claimed matched in
        let (m1, s1, p1, e1) =
          >>=-eq-ok (lift (init_gpu_node_policy_status m claimed)) _ s s' finish e in
        let (a, s2, p2, e2) = >>=-eq-ok (adopt_nodes client.nodes m1 f.adopt) _ s1 s' finish e1 in
        let (u, s3, p3, e3) =
          >>=-eq-ok (update_nodes client.nodes a.0 f.match_) _ s2 s' finish e2 in
        let (r, s4, p4, e4) = >>=-eq-ok (release_nodes client.nodes f.release) _ s3 s' finish e3 in
        let q =
          write_status-finish req origin u.0.instance_ (is_some a.1 || is_some u.1 || is_some r) s4
            s' e4 in
        let n1 = is_some-none a.1 (ground arith) in
        let n2 = is_some-none u.1 (ground arith) in
        let n3 = is_some-none r (ground arith) in
        (
          m1,
          a.0,
          u.0,
          s2,
          s3,
          s4,
          ap (λ x. x.0) p1,
          without_error (adopt_nodes client.nodes m1 f.adopt) s s1 s2 a (ap (λ x. x.1) p1) n1 p2,
          without_error (update_nodes client.nodes a.0 f.match_) s2 s2 s3 u refl n2 p3,
          rw n3 at p4,
          rw q at e4,
        )

  -- What release_managed has gone through when it ends with success.
  release_managed-finish :
      (origin : GpuNodePolicy F) (nodes : List Node) (s s' : S)
      → release_managed lib client namespace origin nodes s ≡ (ok finish, s')
      → (s1 : S) × (s2 : S) × (s3 : S) × (release_nodes client.nodes nodes s ≡ (ok none, s1))
        × (remove_device_plugin_config_map_data client namespace origin s1 ≡ (ok none, s2))
        × (remove_mig_config_map_data lib client namespace origin s2 ≡ (ok none, s3))
        × (drop_finalizer lib client namespace origin s3 ≡ (ok finish, s'))
  unfolding release_managed
  release_managed-finish origin nodes s s' e =
      let (r, s1, p1, e1) = >>=-eq-ok (release_nodes client.nodes nodes) _ s s' finish e in
      let (n1, f1) = unless_error-finish r _ s1 s' e1 in
      let (c, s2, p2, e2) =
        >>=-eq-ok (remove_device_plugin_config_map_data client namespace origin) _ s1 s' finish
          f1 in
      let (n2, f2) = unless_wrapped-finish _ c _ s2 s' e2 in
      let (g, s3, p3, e3) =
        >>=-eq-ok (remove_mig_config_map_data lib client namespace origin) _ s2 s' finish f2 in
      let (n3, f3) = unless_wrapped-finish _ g _ s3 s' e3 in
      (s1, s2, s3, rw n1 at p1, rw n2 at p2, rw n3 at p3, f3)

  -- The nodes that are listed, and none of them needs to be taken out of MIG mode.
  finalize-listed :
      (origin : GpuNodePolicy F) (nodes : List Node) (s s' : S)
      → finalize_nodes lib client namespace origin (done nodes) s ≡ (ok finish, s')
      → ((not (origin.spec.mode == DeviceMode.mig) || all_mig_disabled nodes) ≡ true)
        × (release_managed lib client namespace origin nodes s ≡ (ok finish, s'))
  finalize-listed origin nodes s s' e = elim (Bool-cases (origin.spec.mode == DeviceMode.mig)) [
    | inr q ↦ (ground arith, rw q at e)
    | inl q ↦
        let e1 = rw q at e in
        let (b, s1, p, e2) = >>=-eq-ok (revert_mig_nodes client.nodes nodes) _ s s' finish e1 in
        elim (Bool-cases b) [
          | inr h ↦ let e3 = rw h at e2 in cc
          | inl h ↦
              let disabled = (revert_mig_nodes_lem client.nodes nodes s).0 s1 (rw h at p) in
              let same : s1 ≡ s =
                ap (λ x. x.1)
                  (sym (rw h at p) ∙ (revert_mig_nodes_lem client.nodes nodes s).1 disabled) in
              (ground arith, rw (h, same) at e2)
        ]
  ]

  -- A policy with the finalizer is being deleted and the finalization ends with success. Then the
  -- nodes that carry the policy's name were listed, all of them were out of MIG mode if the policy
  -- is of that mode, and ReleaseNodes, removeDevicePluginConfigMapData and removeMigConfigMapData
  -- have run in this order, without an error, before the finalizer was removed.
  pub finalize-finish :
      (origin : GpuNodePolicy F) (s s' : S)
      → string_in_array release_finalizer_name origin.metadata.finalizers ≡ true
      → finalize lib client namespace origin s ≡ (ok finish, s')
      → (nodes : List Node) × (s0 : S) × (s1 : S) × (s2 : S) × (s3 : S) × (client.nodes.list_nodes
            (managed_selector origin.metadata.name)
            s
          ≡ (done nodes, s0))
        × ((not (origin.spec.mode == DeviceMode.mig) || all_mig_disabled nodes) ≡ true)
        × (release_nodes client.nodes nodes s0 ≡ (ok none, s1))
        × (remove_device_plugin_config_map_data client namespace origin s1 ≡ (ok none, s2))
        × (remove_mig_config_map_data lib client namespace origin s2 ≡ (ok none, s3))
        × (drop_finalizer lib client namespace origin s3 ≡ (ok finish, s'))
  unfolding finalize
  finalize-finish origin s s' h e =
      let e1 = rw h at e in
      elim (Fallible-cases (client.nodes.list_nodes (managed_selector origin.metadata.name) s).0) [
        | inl (nodes, p) ↦
            let s0 = (client.nodes.list_nodes (managed_selector origin.metadata.name) s).1 in
            let (disabled, e2) = finalize-listed origin nodes s0 s' (rw p at e1) in
            let (s1, s2, s3, e3, e4, e5, e6) = release_managed-finish origin nodes s0 s' e2 in
            (nodes, s0, s1, s2, s3, (λ i. (p i, s0)), disabled, e3, e4, e5, e6)
        | inr (x, p) ↦ let e2 = rw p at e1 in cc
      ]
