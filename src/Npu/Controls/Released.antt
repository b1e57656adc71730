-- ===== src/Npu/Controls/Released.antt =====
-- removeAllNPUModeLabels, called for a node whose labels are not nil.
use mathlib.Core.Path.{subst}
use accelerator_config_manag.Prelude.{refl, String, Bool, false, ◌||◌, Option, none, ◌==◌, ◌≡◌, ◌↔◌}
use accelerator_config_manag.Prelude.{sym, ◌∙◌, arith, eq_iff, if◌then◌else◌}
use accelerator_config_manag.Prelude.Dict.{Dict, lookup, has, SameMap}
use accelerator_config_manag.Prelude.GoMap.{made, nil_map}
use accelerator_config_manag.Labels.{drop_row, drop_label}
use accelerator_config_manag.Labels.Laws.{dropped, drop_label_made, lookup-dropped, dropped-eq}
use accelerator_config_manag.Npu.Names.{
  npu_config_state_label, npu_mode_managed_by_label, npu_workload_config_label_key,
  npu_worker_selector_label_key,
}
use accelerator_config_manag.Npu.Controls.{remove_all_npu_mode_labels}

-- The label that a released node has under a key, from the one that is there.
pub released_npu_label : String → Option String → Option String
released_npu_label k old =
    if npu_mode_managed_by_label == k
    then none
    else if npu_worker_selector_label_key == k
    then none
    else if npu_workload_config_label_key == k
    then none
    else old

pub released_npu_label-none : (k : String) → released_npu_label k none ≡ none
unfolding released_npu_label
released_npu_label-none k = ground arith

-- The label that says which policy manages the node is gone, and the label of the daemon's state stays.
pub released_npu_label-managed :
    (old : Option String) → released_npu_label npu_mode_managed_by_label old ≡ none
unfolding released_npu_label
released_npu_label-managed old = refl

pub released_npu_label-state :
    (old : Option String) → released_npu_label npu_config_state_label old ≡ old
unfolding released_npu_label
released_npu_label-state old = refl

unrowed : Dict String → Dict String
unrowed d = dropped npu_worker_selector_label_key (dropped npu_workload_config_label_key d)

released : Dict String → Dict String
released d = dropped npu_mode_managed_by_label (unrowed (unrowed d))

released_flag : Dict String → Bool
released_flag d =
    has npu_workload_config_label_key d
    || has npu_worker_selector_label_key d
    || has npu_mode_managed_by_label d

remove_all_parts :
    (d : Dict String) → remove_all_npu_mode_labels (made d) ≡ (made (released d), released_flag d)
unfolding remove_all_npu_mode_labels drop_row released released_flag unrowed
remove_all_parts d = simp (drop_label_made, lookup-dropped) (ground arith)

lookup-released :
    (d : Dict String) (k : String) → lookup k (released d) ≡ released_npu_label k (lookup k d)
unfolding released unrowed released_npu_label
lookup-released d k = simp lookup-dropped (ground arith)

same-released_flag :
    (d : Dict String)
    → released_flag d ≡ false
    → (k : String) → released_npu_label k (lookup k d) ≡ lookup k d
unfolding released_flag released_npu_label
same-released_flag d h k = ground (
  arith,
  eq_iff npu_mode_managed_by_label k,
  eq_iff npu_worker_selector_label_key k,
  eq_iff npu_workload_config_label_key k,
)

released_flag-false :
    (d : Dict String)
    → ((k : String) → released_npu_label k (lookup k d) ≡ lookup k d)
    → released_flag d ≡ false
unfolding released_flag released_npu_label
released_flag-false d h = ground (
  arith,
  h npu_mode_managed_by_label,
  h npu_worker_selector_label_key,
  h npu_workload_config_label_key,
)

released_npu_label_idem :
    (k : String) (old : Option String)
    → released_npu_label k (released_npu_label k old) ≡ released_npu_label k old
unfolding released_npu_label
released_npu_label_idem k old = ground arith

settled : (d : Dict String) → released_flag (released d) ≡ false
settled d =
    released_flag-false (released d)
      λ k. rw lookup-released (released_npu_label_idem k (lookup k d))

released-eq : (d : Dict String) → released_flag d ≡ false → released d ≡ d
unfolding released released_flag unrowed
released-eq d h = ground (
  arith,
  dropped-eq npu_workload_config_label_key d,
  dropped-eq npu_worker_selector_label_key d,
  dropped-eq npu_mode_managed_by_label d,
)

release-released :
    (d : Dict String) → remove_all_npu_mode_labels (made (released d)) ≡ (made (released d), false)
release-released d =
    rw (remove_all_parts (released d), settled d, released-eq (released d) (settled d))

-- removeAllNPUModeLabels removes the workload, worker selector and managed-by labels and keeps the
-- others, and its result is false exactly when no label has changed.
pub remove_all_npu_mode_labels_lem :
    (d : Dict String)
    → (d' : Dict String) × (modified : Bool) × (remove_all_npu_mode_labels (made d)
        ≡ (made d', modified))
      × ((k : String) → lookup k d' ≡ released_npu_label k (lookup k d))
      × ((modified ≡ false) ↔ SameMap d' d)
remove_all_npu_mode_labels_lem d = (
  released d,
  released_flag d,
  remove_all_parts d,
  lookup-released d,
  (
    (λ h k. lookup-released d k ∙ same-released_flag d h k),
    (λ same. released_flag-false d (λ k. sym (lookup-released d k) ∙ same k)),
  ),
)

-- A second removeAllNPUModeLabels, on the labels that a first one left of labels that are not nil,
-- returns false and leaves them as they are.
pub remove_all_npu_mode_labels_idem :
    (d d' : Dict String) (modified : Bool)
    → remove_all_npu_mode_labels (made d) ≡ (made d', modified)
    → remove_all_npu_mode_labels (made d') ≡ (made d', false)
remove_all_npu_mode_labels_idem d d' modified e =
    let p : released d ≡ d' = ground (arith, remove_all_parts d) in
    subst (λ x. remove_all_npu_mode_labels (made x) ≡ (made x, false)) p (release-released d)

-- On nil labels it does nothing.
pub remove_all_npu_mode_labels_nil : remove_all_npu_mode_labels nil_map ≡ (nil_map, false)
unfolding remove_all_npu_mode_labels drop_label drop_row
remove_all_npu_mode_labels_nil = refl
