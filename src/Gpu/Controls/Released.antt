-- ===== src/Gpu/Controls/Released.antt =====
-- removeAllGPUModeLabels, called for a node whose labels are not nil.
use mathlib.Core.Path.{subst}
use accelerator_config_manag.Prelude.{String, Bool, false, ◌||◌, Option, none, some, ◌==◌, ◌≡◌, ◌↔◌}
use accelerator_config_manag.Prelude.{refl, sym, ◌∙◌, arith, eq_iff, if◌then◌else◌}
use accelerator_config_manag.Prelude.Dict.{Dict, lookup, has, SameMap}
use accelerator_config_manag.Prelude.GoMap.{nil_map, made}
use accelerator_config_manag.Prelude.Run.{ok, panic}
use accelerator_config_manag.Labels.{differs, drop_row, drop_label, ensure_label}
use accelerator_config_manag.Labels.Laws.{
  ensured, dropped, ensure_label_made, drop_label_made, lookup-ensured, lookup-dropped,
  differs-false, ensured-eq, dropped-eq,
}
use accelerator_config_manag.Gpu.Names.{
  device_plugin_default_config_label, mig_config_label, mode_managed_by_label,
  common_operands_label_key, gpu_workload_config_label_key,
}
use accelerator_config_manag.Gpu.Controls.{remove_all_gpu_mode_labels}

-- The label that a released node has under a key, from the one that is there.
pub released_gpu_label : String → Option String → Option String
released_gpu_label k old =
    if common_operands_label_key == k
    then some "false"
    else if mig_config_label == k
    then none
    else if device_plugin_default_config_label == k
    then none
    else if mode_managed_by_label == k
    then none
    else if gpu_workload_config_label_key == k
    then none
    else old

unworked : Dict String → Dict String
unworked d =
    dropped gpu_workload_config_label_key
      (dropped gpu_workload_config_label_key (dropped gpu_workload_config_label_key d))

released : Dict String → Dict String
released d = ensured common_operands_label_key "false" (
    dropped mig_config_label
      (dropped device_plugin_default_config_label (dropped mode_managed_by_label (unworked d))))

released_flag : Dict String → Bool
released_flag d =
    has gpu_workload_config_label_key d
    || has mode_managed_by_label d
    || has device_plugin_default_config_label d
    || has mig_config_label d
    || differs (lookup common_operands_label_key d) "false"

remove_all_parts :
    (d : Dict String)
    → remove_all_gpu_mode_labels (made d) ≡ ok (made (released d), released_flag d)
unfolding remove_all_gpu_mode_labels drop_row released released_flag unworked
remove_all_parts d = simp (drop_label_made, ensure_label_made, lookup-dropped) (ground arith)

lookup-released :
    (d : Dict String) (k : String) → lookup k (released d) ≡ released_gpu_label k (lookup k d)
unfolding released unworked released_gpu_label
lookup-released d k = simp (lookup-ensured, lookup-dropped) (ground arith)

same-released_flag :
    (d : Dict String)
    → released_flag d ≡ false
    → (k : String) → released_gpu_label k (lookup k d) ≡ lookup k d
unfolding released_flag released_gpu_label
same-released_flag d h k = ground (
  arith,
  eq_iff mig_config_label k,
  eq_iff device_plugin_default_config_label k,
  eq_iff mode_managed_by_label k,
  eq_iff gpu_workload_config_label_key k,
  eq_iff common_operands_label_key k,
  differs-false (lookup common_operands_label_key d) "false",
)

released_flag-false :
    (d : Dict String)
    → ((k : String) → released_gpu_label k (lookup k d) ≡ lookup k d)
    → released_flag d ≡ false
unfolding released_flag released_gpu_label
released_flag-false d h = ground (
  arith,
  h mig_config_label,
  h device_plugin_default_config_label,
  h mode_managed_by_label,
  h gpu_workload_config_label_key,
  h common_operands_label_key,
)

released_gpu_label_idem :
    (k : String) (old : Option String)
    → released_gpu_label k (released_gpu_label k old) ≡ released_gpu_label k old
unfolding released_gpu_label
released_gpu_label_idem k old = ground arith

settled : (d : Dict String) → released_flag (released d) ≡ false
settled d =
    released_flag-false (released d)
      λ k. rw lookup-released (released_gpu_label_idem k (lookup k d))

unworked-eq : (d : Dict String) → has gpu_workload_config_label_key d ≡ false → unworked d ≡ d
unfolding unworked
unworked-eq d h = ground (arith, dropped-eq gpu_workload_config_label_key d)

released-eq : (d : Dict String) → released_flag d ≡ false → released d ≡ d
unfolding released released_flag
released-eq d h = ground (
  arith,
  unworked-eq d,
  dropped-eq mode_managed_by_label d,
  dropped-eq device_plugin_default_config_label d,
  dropped-eq mig_config_label d,
  ensured-eq common_operands_label_key "false" d,
)

release-released :
    (d : Dict String)
    → remove_all_gpu_mode_labels (made (released d)) ≡ ok (made (released d), false)
release-released d =
    rw (remove_all_parts (released d), settled d, released-eq (released d) (settled d))

-- On labels that are not nil removeAllGPUModeLabels does not panic. The workload, managed-by,
-- device-plugin and MIG configuration labels are gone, the operands label is "false", the other
-- labels stay, and the result is false exactly when no label has changed.
pub remove_all_gpu_mode_labels_lem :
    (d : Dict String)
    → (d' : Dict String) × (modified : Bool) × (remove_all_gpu_mode_labels (made d)
        ≡ ok (made d', modified))
      × ((k : String) → lookup k d' ≡ released_gpu_label k (lookup k d))
      × ((modified ≡ false) ↔ SameMap d' d)
remove_all_gpu_mode_labels_lem d = (
  released d,
  released_flag d,
  remove_all_parts d,
  lookup-released d,
  (
    (λ h k. lookup-released d k ∙ same-released_flag d h k),
    (λ same. released_flag-false d (λ k. sym (lookup-released d k) ∙ same k)),
  ),
)

-- A second removeAllGPUModeLabels, on the labels that a first one left of labels that are not nil,
-- changes nothing and returns false.
pub remove_all_gpu_mode_labels_idem :
    (d d' : Dict String) (modified : Bool)
    → remove_all_gpu_mode_labels (made d) ≡ ok (made d', modified)
    → remove_all_gpu_mode_labels (made d') ≡ ok (made d', false)
remove_all_gpu_mode_labels_idem d d' modified e =
    let p : released d ≡ d' = cc (remove_all_parts d) in
    subst (λ x. remove_all_gpu_mode_labels (made x) ≡ ok (made x, false)) p (release-released d)

-- On nil labels removeAllGPUModeLabels panics, since it always writes the operands label.
pub remove_all_gpu_mode_labels_nil : remove_all_gpu_mode_labels nil_map ≡ panic
unfolding remove_all_gpu_mode_labels drop_row drop_label ensure_label
remove_all_gpu_mode_labels_nil = refl
