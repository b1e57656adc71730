-- ===== src/Npu/Controls/Update.antt =====
-- updateNPUStateLabels, called for a node whose labels are not nil.
use mathlib.Core.Path.{subst}
use accelerator_config_manag.Prelude.{String, Bool, false, Option, ◌≡◌, ◌↔◌, sym, ◌∙◌}
use accelerator_config_manag.Prelude.Dict.{Dict, lookup, SameMap}
use accelerator_config_manag.Prelude.GoMap.{made, nil_map}
use accelerator_config_manag.Prelude.Run.{ok, panic}
use accelerator_config_manag.Npu.Controls.{NpuModeManager, update_npu_state_labels}
use accelerator_config_manag.Npu.Controls.Adopted.{
  desired_npu_label, adopted, adopted_flag, adopted-eq, lookup-adopted, same-adopted_flag,
  adopted_flag-false, desired_npu_label_idem, update_npu_state_labels_parts, ModeCase-all,
  update_nil_by_case,
}

module _ (m : NpuModeManager) where
  -- The labels that `m` wants.
  abbrev pub wanted : String → Option String → Option String
  wanted = desired_npu_label m.mode m.managed_by

  abbrev after : Dict String → Dict String
  after = adopted m.mode m.managed_by

  abbrev flag : Dict String → Bool
  flag = adopted_flag m.mode m.managed_by

  -- On labels that are not nil updateNPUStateLabels does not panic. It leaves under every key the
  -- label that the manager wants there, and it returns false exactly when no label has changed.
  pub update_npu_state_labels_lem :
      (d : Dict String)
      → (d' : Dict String) × (modified : Bool) × (update_npu_state_labels m (made d)
          ≡ ok (made d', modified))
        × ((k : String) → lookup k d' ≡ wanted k (lookup k d))
        × ((modified ≡ false) ↔ SameMap d' d)
  update_npu_state_labels_lem d = (
    after d,
    flag d,
    update_npu_state_labels_parts m d,
    (λ k. lookup-adopted _ _ d k),
    (
      (λ h k. lookup-adopted _ _ d k ∙ same-adopted_flag _ _ d h k),
      (λ same. adopted_flag-false _ _ d (λ k. sym (lookup-adopted _ _ d k) ∙ same k)),
    ),
  )

  settled : (d : Dict String) → flag (after d) ≡ false
  settled d =
      adopted_flag-false _ _ (after d)
        λ k. rw lookup-adopted (desired_npu_label_idem _ _ k (lookup k d))

  update-after :
      (d : Dict String) → update_npu_state_labels m (made (after d)) ≡ ok (made (after d), false)
  update-after d =
      rw
        (update_npu_state_labels_parts m (after d), settled d, adopted-eq _ _ (after d) (settled d))

  -- A second updateNPUStateLabels, on the labels that a first one left of labels that are not
  -- nil, returns false and leaves them as they are.
  pub update_npu_state_labels_idem :
      (d d' : Dict String) (modified : Bool)
      → update_npu_state_labels m (made d) ≡ ok (made d', modified)
      → update_npu_state_labels m (made d') ≡ ok (made d', false)
  update_npu_state_labels_idem d d' modified e =
      let p : after d ≡ d' = cc (update_npu_state_labels_parts m d) in
      subst (λ x. update_npu_state_labels m (made x) ≡ ok (made x, false)) p (update-after d)

  -- On nil labels it panics.
  pub update_npu_state_labels_nil : update_npu_state_labels m nil_map ≡ panic
  update_npu_state_labels_nil = update_nil_by_case m (ModeCase-all m.mode)
