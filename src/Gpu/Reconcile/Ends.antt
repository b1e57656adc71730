-- ===== src/Gpu/Reconcile/Ends.antt =====
-- Parts of a reconciliation of the GPU controller that do not panic: the finalization, the set-up of
-- the mode and the writing of the status.
use accelerator_config_manag.Prelude.{
  String, Bool, true, false, not, ◌||◌, ◌==◌, none, some, is_some, List, ◌≡◌, refl, ◌∙◌, ap, arith,
  Bool-cases, inl, inr,
}
use accelerator_config_manag.Prelude.GoMap.{GoMap}
use accelerator_config_manag.Prelude.Eff.{Eff, pure, Ends, >>=-Ends, Ends-kept, Anything}
use accelerator_config_manag.Api.Foreign.{Foreign}
use accelerator_config_manag.Api.Meta.{
  Node, NamespacedName, Error, Fallible, done, failed, Fallible-cases,
}
use accelerator_config_manag.Api.Gpu.{GpuNodePolicy}
use accelerator_config_manag.Api.Gpu.DeviceMode
use accelerator_config_manag.Common.Client.Labelled.{ListsLabelled}
use accelerator_config_manag.Common.DeepEqual.{deep_equal}
use accelerator_config_manag.Common.Text.{string_in_array, remove_string}
use accelerator_config_manag.Common.Filter.Kept.{all, has_labels}
use accelerator_config_manag.Common.Outcome.{Outcome, unless_wrapped, unless_error}
use accelerator_config_manag.Gpu.Names.{release_finalizer_name}
use accelerator_config_manag.Gpu.Controls.{GpuModeManager}
use accelerator_config_manag.Gpu.External.{Library, GpuClient}
use accelerator_config_manag.Gpu.Nodes.{release_nodes, revert_mig_nodes}
use accelerator_config_manag.Gpu.Nodes.Total.{release_nodes-Ends, revert_mig_nodes-Ends}
use accelerator_config_manag.Gpu.ConfigMaps.{
  add_device_plugin_config_map_data, remove_device_plugin_config_map_data,
}
use accelerator_config_manag.Gpu.ConfigMaps.Mig.{
  add_mig_config_map_data, remove_mig_config_map_data,
}
use accelerator_config_manag.Gpu.ConfigMaps.Total.{
  ReadsData, KeepsData, Kept, add_device_plugin_config_map_data-Ends,
  remove_device_plugin_config_map_data-Ends,
}
use accelerator_config_manag.Gpu.ConfigMaps.Kept.{
  add_device_plugin_config_map_data-Keeps, remove_device_plugin_config_map_data-Keeps,
}
use accelerator_config_manag.Gpu.Nodes.Kept.{release_nodes-Keeps, revert_mig_nodes-Keeps}
use accelerator_config_manag.Gpu.ConfigMaps.Mig.Total.{
  add_mig_config_map_data-Ends, remove_mig_config_map_data-Ends,
}
use accelerator_config_manag.Gpu.Reconcile.{
  write_status, setup_mode, setup_mig_mode, with_mig, finalize, drop_finalizer, release_managed,
  release_when, finalize_nodes, updated_policy, managed_selector, GpuNodeStatus-discrete,
}

module _ {F : Foreign} {S : Type 0} (lib : Library F) (client : GpuClient F S)
    (namespace : String) where
  unless_wrapped-Ends :
      (text : String) (err : Error) (outcome : Outcome) (s : S)
      → Ends Anything (unless_wrapped text err (pure outcome) s)
  unless_wrapped-Ends text none outcome s = tt
  unless_wrapped-Ends text (some e) outcome s = tt

  pub write_status-Ends :
      (req : NamespacedName) (origin policy : GpuNodePolicy F) (requeue : Bool) (s : S)
      → Ends Anything (write_status lib client namespace req origin policy requeue s)
  unfolding write_status
  write_status-Ends req origin policy requeue s =
      elim (Bool-cases
        (deep_equal GpuNodeStatus-discrete origin.status.nodes policy.status.nodes)) [
          | inl e ↦ rw e tt
          | inr e ↦ rw e (unless_wrapped-Ends _ (client.update_status policy s).0 _ _)
        ]

  updated_policy-Ends :
      (answer : Fallible (GpuNodePolicy F)) (s : S)
      → Ends Anything (updated_policy lib client namespace answer s)
  updated_policy-Ends (done policy) s = tt
  updated_policy-Ends (failed e) s = tt

  drop_finalizer-Ends :
      (origin : GpuNodePolicy F) (s : S)
      → Ends Anything (drop_finalizer lib client namespace origin s)
  unfolding drop_finalizer
  drop_finalizer-Ends origin s =
      elim (Bool-cases (remove_string release_finalizer_name origin.metadata.finalizers).1) [
        | inl e ↦ rw e (updated_policy-Ends _ _)
        | inr e ↦ rw e tt
      ]

  module _ (Plugin Mig : S → Type 0) (labelled : ListsLabelled client.nodes)
      (data_ : ReadsData lib client namespace Plugin Mig)
      (keeps : KeepsData client Plugin Mig) where
    unless_error-Ends :
        (err : Error) (rest : Eff S Outcome) (s : S)
        → Ends Anything (rest s)
        → Ends Anything (unless_error err rest s)
    unless_error-Ends none rest s h = h
    unless_error-Ends (some e) rest s h = tt

    unless_wrapped_rest-Ends :
        (text : String) (err : Error) (rest : Eff S Outcome) (s : S)
        → Ends Anything (rest s)
        → Ends Anything (unless_wrapped text err rest s)
    unless_wrapped_rest-Ends text none rest s h = h
    unless_wrapped_rest-Ends text (some e) rest s h = tt

    release_managed-Ends :
        (origin : GpuNodePolicy F) (nodes : List Node) (s : S)
        → all has_labels nodes ≡ true
        → Mig s
        → Ends Anything (release_managed lib client namespace origin nodes s)
    unfolding release_managed
    release_managed-Ends origin nodes s h i =
        let remove_plugin = remove_device_plugin_config_map_data client namespace origin in
        let remove_mig = remove_mig_config_map_data lib client namespace origin in
        >>=-Ends (λ err t. Anything err t × Mig t) Anything (release_nodes client.nodes nodes) _ s
          (Ends-kept Mig Anything (release_nodes client.nodes nodes s)
            (release_nodes-Ends client.nodes nodes s h)
            (release_nodes-Keeps client.nodes Mig keeps.patched_node nodes s i))
          (λ err t k. unless_error-Ends err _ t (
            >>=-Ends (λ err' t'. Anything err' t' × Mig t') Anything remove_plugin _ t
              (Ends-kept Mig Anything (remove_plugin t)
                (remove_device_plugin_config_map_data-Ends lib client namespace origin t)
                (remove_device_plugin_config_map_data-Keeps lib client Plugin Mig keeps namespace
                  origin t k.1))
              (λ err' t' k'. unless_wrapped_rest-Ends _ err' _ t' (
                >>=-Ends Anything Anything remove_mig _ t'
                  (remove_mig_config_map_data-Ends lib client namespace origin t'
                    (λ c. data_.mig_data t' c k'.1))
                  (λ err'' t'' k''.
                    unless_wrapped_rest-Ends _ err'' _ t'' (drop_finalizer-Ends origin t''))))))

    release_when-Ends :
        (origin : GpuNodePolicy F) (nodes : List Node) (reverted : Bool) (s : S)
        → all has_labels nodes ≡ true
        → Mig s
        → Ends Anything (release_when lib client namespace origin nodes reverted s)
    release_when-Ends origin nodes true s h i = release_managed-Ends origin nodes s h i
    release_when-Ends origin nodes false s h i = tt

    finalize_listed-Ends :
        (origin : GpuNodePolicy F) (nodes : List Node) (s : S)
        → all has_labels nodes ≡ true
        → Mig s
        → Ends Anything (finalize_nodes lib client namespace origin (done nodes) s)
    finalize_listed-Ends origin nodes s h i =
        elim (Bool-cases (origin.spec.mode == DeviceMode.mig)) [
          | inl e ↦ rw e (
              >>=-Ends (λ b t. Anything b t × Mig t) Anything (revert_mig_nodes client.nodes nodes)
                _ s
                (Ends-kept Mig Anything (revert_mig_nodes client.nodes nodes s)
                  (revert_mig_nodes-Ends client.nodes nodes s h)
                  (revert_mig_nodes-Keeps client.nodes Mig keeps.patched_node nodes s i))
                (λ b t k. release_when-Ends origin nodes b t h k.1))
          | inr e ↦ rw e (release_managed-Ends origin nodes s h i)
        ]

    listed-Ends :
        (origin : GpuNodePolicy F) (selector : GoMap String) (s : S)
        → Plugin s
        → Mig s
        → Ends Anything (
            finalize_nodes lib client namespace origin
              (client.nodes.list_nodes selector s).0
              (client.nodes.list_nodes selector s).1)
    listed-Ends origin selector s p i =
        elim (Fallible-cases (client.nodes.list_nodes selector s).0) [
          | inl (nodes, e) ↦ rw e (
              finalize_listed-Ends origin nodes (client.nodes.list_nodes selector s).1
                (labelled selector s nodes e) (keeps.listed_nodes selector s p i).1)
          | inr (x, e) ↦ rw e tt
        ]

    pub finalize-Ends :
        (origin : GpuNodePolicy F) (s : S)
        → Plugin s
        → Mig s
        → Ends Anything (finalize lib client namespace origin s)
    unfolding finalize
    finalize-Ends origin s p i =
        elim (Bool-cases (string_in_array release_finalizer_name origin.metadata.finalizers)) [
          | inl e ↦ rw e (listed-Ends origin (managed_selector origin.metadata.name) s p i)
          | inr e ↦ rw e tt
        ]

    with_mig-Ends :
        (m : GpuModeManager F) (c : GpuModeManager F × Error) (s : S)
        → is_some m.instance_.spec.mig_config ≡ true
        → Kept m c s
        → Mig s
        → Ends (Kept m) (with_mig lib client namespace c s)
    with_mig-Ends m (m', some e) s h k j = k
    with_mig-Ends m (m', none) s h (i, w, o) j =
        let h' : is_some m'.instance_.spec.mig_config ≡ true =
          ap (λ p. is_some p.spec.mig_config) i ∙ h in
        >>=-Ends (Kept m') (Kept m) (add_mig_config_map_data lib client namespace m') _ s
          (add_mig_config_map_data-Ends lib client namespace m' s (λ c. data_.mig_data s c j) h')
          (λ c t (i', w', o'). (i' ∙ i, w' ∙ w, o' ∙ o))

    setup_mig_mode-Ends :
        (m : GpuModeManager F) (s : S)
        → is_some m.instance_.spec.mig_config ≡ true
        → Plugin s
        → Mig s
        → Ends (Kept m) (setup_mig_mode lib client namespace m s)
    unfolding setup_mig_mode
    setup_mig_mode-Ends m s h p i =
        let add = add_device_plugin_config_map_data lib client namespace m in
        >>=-Ends (λ c t. Kept m c t × Mig t) (Kept m) add _ s
          (Ends-kept Mig (Kept m) (add s)
            (add_device_plugin_config_map_data-Ends lib client namespace m s
              (λ c. data_.plugin_data s c p))
            (add_device_plugin_config_map_data-Keeps lib client Plugin Mig keeps namespace m s i))
          (λ c t k. with_mig-Ends m c t h k.0 k.1)

    pub setup_mode-Ends :
        (m : GpuModeManager F) (s : S)
        → (not (m.mode == DeviceMode.mig) || is_some m.instance_.spec.mig_config) ≡ true
        → Plugin s
        → Mig s
        → Ends (Kept m) (setup_mode lib client namespace m s)
    unfolding setup_mode
    setup_mode-Ends m s h p i = elim (Bool-cases (m.mode == DeviceMode.time_slicing)) [
      | inl e ↦ rw e (
          >>=-Ends (Kept m) (Kept m) (add_device_plugin_config_map_data lib client namespace m) _ s
            (add_device_plugin_config_map_data-Ends lib client namespace m s
              (λ c. data_.plugin_data s c p))
            (λ c t k. k))
      | inr e ↦ elim (Bool-cases (m.mode == DeviceMode.mig)) [
        | inl f ↦
            rw (e, f)
              (>>=-Ends (Kept m) (Kept m) (setup_mig_mode lib client namespace m) _ s
                (setup_mig_mode-Ends m s (ground arith) p i) (λ c t k. k))
        | inr f ↦ rw (e, f) (refl, refl, refl)
      ]
    ]
