-- ===== src/Gpu/Controls/Update.antt =====
-- updateGPUStateLabels, called for a node whose labels are not nil.
use mathlib.Core.Path.{subst}
use accelerator_config_manag.Prelude.{String, Bool, false, Option, refl, ◌≡◌, ◌↔◌, sym, ◌∙◌}
use accelerator_config_manag.Prelude.Dict.{Dict, lookup, SameMap}
use accelerator_config_manag.Prelude.GoMap.{nil_map, made}
use accelerator_config_manag.Prelude.Run.{ok, panic}
use accelerator_config_manag.Api.Foreign.{Foreign}
use accelerator_config_manag.Labels.{ensure_row, ensure_label, drop_label}
use accelerator_config_manag.Gpu.Controls.{GpuModeManager, update_gpu_state_labels}
use accelerator_config_manag.Gpu.Controls.Adopted.{
  IsWorkload, none_, container, vm_passthrough, vcuda, desired_gpu_label, adopted, adopted_flag,
  lookup-adopted, update_gpu_state_labels_parts,
}
use accelerator_config_manag.Gpu.Controls.Adopted.Settled.{
  adopted-eq, same-adopted_flag, adopted_flag-false, desired_gpu_label_idem,
}

module _ {F : Foreign} (m : GpuModeManager F) (workload : IsWorkload m.workload_config_name) where
  -- The labels that `m` wants.
  abbrev pub wanted : String → Option String → Option String
  wanted =
      desired_gpu_label m.workload_config_name m.managed_by m.device_plugin_config_name
        m.mig_config_name

  abbrev after : Dict String → Dict String
  after = adopted m.workload_config_name m.managed_by m.device_plugin_config_name m.mig_config_name

  abbrev flag : Dict String → Bool
  flag =
      adopted_flag m.workload_config_name m.managed_by m.device_plugin_config_name m.mig_config_name

  -- On labels that are not nil updateGPUStateLabels does not panic. It leaves under every key the
  -- label that the manager wants there, and it returns false exactly when no label has changed.
  pub update_gpu_state_labels_lem :
      (d : Dict String)
      → (d' : Dict String) × (modified : Bool) × (update_gpu_state_labels m (made d)
          ≡ ok (made d', modified))
        × ((k : String) → lookup k d' ≡ wanted k (lookup k d))
        × ((modified ≡ false) ↔ SameMap d' d)
  update_gpu_state_labels_lem d = (
    after d,
    flag d,
    update_gpu_state_labels_parts m d workload,
    (λ k. lookup-adopted _ _ _ _ d k),
    (
      (λ h k. lookup-adopted _ _ _ _ d k ∙ same-adopted_flag _ _ _ _ d h k),
      (λ same. adopted_flag-false _ _ _ _ d (λ k. sym (lookup-adopted _ _ _ _ d k) ∙ same k)),
    ),
  )

  settled : (d : Dict String) → flag (after d) ≡ false
  settled d =
      adopted_flag-false _ _ _ _ (after d)
        λ k. rw lookup-adopted (desired_gpu_label_idem _ _ _ _ k (lookup k d))

  update-after :
      (d : Dict String) → update_gpu_state_labels m (made (after d)) ≡ ok (made (after d), false)
  update-after d = rw (
    update_gpu_state_labels_parts m (after d) workload,
    settled d,
    adopted-eq _ _ _ _ (after d) (settled d),
  )

  -- A second updateGPUStateLabels, on the labels that a first one left of labels that are not
  -- nil, returns false and leaves them as they are.
  pub update_gpu_state_labels_idem :
      (d d' : Dict String) (modified : Bool)
      → update_gpu_state_labels m (made d) ≡ ok (made d', modified)
      → update_gpu_state_labels m (made d') ≡ ok (made d', false)
  update_gpu_state_labels_idem d d' modified e =
      let p : after d ≡ d' = cc (update_gpu_state_labels_parts m d workload) in
      subst (λ x. update_gpu_state_labels m (made x) ≡ ok (made x, false)) p (update-after d)

  -- On nil labels it panics.
  pub update_gpu_state_labels_nil : update_gpu_state_labels m nil_map ≡ panic
  unfolding update_gpu_state_labels ensure_row ensure_label drop_label lookup
  update_gpu_state_labels_nil = elim workload [
    | none_ e ↦ rw e refl
    | container e ↦ rw e refl
    | vm_passthrough e ↦ rw e refl
    | vcuda e ↦ rw e refl
  ]
