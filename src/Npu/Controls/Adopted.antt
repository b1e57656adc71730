-- ===== src/Npu/Controls/Adopted.antt =====
-- What updateNPUStateLabels leaves on a node, label by label, and what its result says.
use accelerator_config_manag.Prelude.{
  refl, String, Bool, false, ◌||◌, Option, none, some, ◌==◌, ◌≡◌, inl, inr, arith, eq_iff, eq_refl,
  if◌then◌else◌, [], Bool-cases,
}
use accelerator_config_manag.Prelude.Dict.{Dict, lookup, has, lookup-nil}
use accelerator_config_manag.Prelude.GoMap.{made, nil_map}
use accelerator_config_manag.Prelude.Run.{ok, panic}
use accelerator_config_manag.Api.Npu.DeviceMode
use accelerator_config_manag.Labels.{differs, table_row, ensure_row, ensure_label, drop_label}
use accelerator_config_manag.Labels.Laws.{
  ensured, dropped, ensure_label_made, drop_label_made, lookup-ensured, lookup-dropped,
  differs-false, ensured-eq, dropped-eq,
}
use accelerator_config_manag.Npu.Names.{
  npu_mode_managed_by_label, npu_workload_config_label_key, npu_worker_selector_label_key,
  npu_worker_selector_dls, npu_mode_labels,
}
use accelerator_config_manag.Npu.Controls.{NpuModeManager, update_npu_state_labels}

-- The modes that have labels of their own. The API server admits no other, by the CRD's enumeration.
abbrev pub is_npu_mode : String → Bool
is_npu_mode mode = DeviceMode.container == mode || DeviceMode.virtualization == mode

-- The label that is wanted under a key, from the one that is there, for a mode and the name of the
-- policy.
pub desired_npu_label : String → String → String → Option String → Option String
desired_npu_label mode by k old =
    if npu_mode_managed_by_label == k
    then some by
    else if npu_worker_selector_label_key == k
    then (if is_npu_mode mode then some npu_worker_selector_dls else none)
    else if npu_workload_config_label_key == k
    then (if is_npu_mode mode then some mode else none)
    else old

moded : String → Dict String → Dict String
moded mode d =
    if is_npu_mode mode
    then ensured npu_worker_selector_label_key npu_worker_selector_dls
        (ensured npu_workload_config_label_key mode d)
    else dropped npu_worker_selector_label_key (
        dropped npu_workload_config_label_key
          (dropped npu_worker_selector_label_key (dropped npu_workload_config_label_key d)))

-- The labels that updateNPUStateLabels leaves.
pub adopted : String → String → Dict String → Dict String
adopted mode by d = ensured npu_mode_managed_by_label by (moded mode d)

lookup-moded :
    (mode : String) (d : Dict String) (k : String)
    → lookup k (moded mode d) ≡ (
        if npu_worker_selector_label_key == k
        then (if is_npu_mode mode then some npu_worker_selector_dls else none)
        else if npu_workload_config_label_key == k
        then (if is_npu_mode mode then some mode else none)
        else lookup k d)
unfolding moded
lookup-moded mode d k = elim (Bool-cases (is_npu_mode mode)) [
  | inl e ↦ rw e (simp lookup-ensured (ground arith))
  | inr e ↦ rw e (simp lookup-dropped (ground arith))
]

pub lookup-adopted :
    (mode by : String) (d : Dict String) (k : String)
    → lookup k (adopted mode by d) ≡ desired_npu_label mode by k (lookup k d)
unfolding adopted desired_npu_label
lookup-adopted mode by d k = simp (lookup-ensured, lookup-moded)

-- The result of updateNPUStateLabels: the flags of its steps.
moded_flag : String → Dict String → Bool
moded_flag mode d =
    if is_npu_mode mode
    then differs (lookup npu_workload_config_label_key d) mode
      || differs (lookup npu_worker_selector_label_key d) npu_worker_selector_dls
    else has npu_workload_config_label_key d || has npu_worker_selector_label_key d

pub adopted_flag : String → String → Dict String → Bool
unfolding moded_flag
adopted_flag mode by d = moded_flag mode d || differs (lookup npu_mode_managed_by_label d) by

pub data ModeCase (mode : String) : Type 0 where
  container : DeviceMode.container ≡ mode → ModeCase mode
  virtualization : DeviceMode.virtualization ≡ mode → ModeCase mode
  other :
      (DeviceMode.container == mode) ≡ false
      → (DeviceMode.virtualization == mode) ≡ false
      → ModeCase mode

pub ModeCase-all : (mode : String) → ModeCase mode
ModeCase-all mode = elim (Bool-cases (DeviceMode.container == mode)) [
  | inl e ↦ container ((eq_iff DeviceMode.container mode).0 e)
  | inr n ↦ elim (Bool-cases (DeviceMode.virtualization == mode)) [
    | inl e ↦ virtualization ((eq_iff DeviceMode.virtualization mode).0 e)
    | inr n' ↦ other n n'
  ]
]

table_row-other :
    (mode : String)
    → (DeviceMode.container == mode) ≡ false
    → (DeviceMode.virtualization == mode) ≡ false
    → table_row mode npu_mode_labels ≡ []
unfolding lookup
table_row-other mode e f = ground arith

parts_other :
    (m : NpuModeManager) (d : Dict String)
    → (DeviceMode.container == m.mode) ≡ false
    → (DeviceMode.virtualization == m.mode) ≡ false
    → update_npu_state_labels m (made d)
      ≡ ok (made (adopted m.mode m.managed_by d), adopted_flag m.mode m.managed_by d)
unfolding update_npu_state_labels ensure_row adopted moded adopted_flag
parts_other m d e f =
    rw (table_row-other m.mode e f, e, f)
      (simp (lookup-nil, drop_label_made, ensure_label_made, lookup-dropped) (ground arith))

parts_by_case :
    (m : NpuModeManager) (d : Dict String)
    → ModeCase m.mode
    → update_npu_state_labels m (made d)
      ≡ ok (made (adopted m.mode m.managed_by d), adopted_flag m.mode m.managed_by d)
unfolding update_npu_state_labels ensure_row adopted moded adopted_flag lookup
parts_by_case m d (container e) = rw (← e) (simp (ensure_label_made, lookup-ensured))
parts_by_case m d (virtualization e) = rw (← e) (simp (ensure_label_made, lookup-ensured))
parts_by_case m d (other e f) = parts_other m d e f

pub update_nil_by_case :
    (m : NpuModeManager) → ModeCase m.mode → update_npu_state_labels m nil_map ≡ panic
unfolding update_npu_state_labels ensure_row ensure_label drop_label lookup
update_nil_by_case m (container e) = rw (← e) refl
update_nil_by_case m (virtualization e) = rw (← e) refl
update_nil_by_case m (other e f) = rw (table_row-other m.mode e f, e, f) refl

pub update_npu_state_labels_parts :
    (m : NpuModeManager) (d : Dict String)
    → update_npu_state_labels m (made d)
      ≡ ok (made (adopted m.mode m.managed_by d), adopted_flag m.mode m.managed_by d)
update_npu_state_labels_parts m d = parts_by_case m d (ModeCase-all m.mode)

pub same-adopted_flag :
    (mode by : String) (d : Dict String)
    → adopted_flag mode by d ≡ false
    → (k : String) → desired_npu_label mode by k (lookup k d) ≡ lookup k d
unfolding adopted_flag desired_npu_label
same-adopted_flag mode by d h k = ground (
  arith,
  eq_iff npu_mode_managed_by_label k,
  eq_iff npu_worker_selector_label_key k,
  eq_iff npu_workload_config_label_key k,
  differs-false (lookup npu_mode_managed_by_label d) by,
  differs-false (lookup npu_worker_selector_label_key d) npu_worker_selector_dls,
  differs-false (lookup npu_workload_config_label_key d) mode,
)

pub adopted_flag-false :
    (mode by : String) (d : Dict String)
    → ((k : String) → desired_npu_label mode by k (lookup k d) ≡ lookup k d)
    → adopted_flag mode by d ≡ false
unfolding adopted_flag desired_npu_label
adopted_flag-false mode by d h = ground (
  arith,
  h npu_mode_managed_by_label,
  h npu_worker_selector_label_key,
  h npu_workload_config_label_key,
  eq_refl by,
  eq_refl mode,
)

moded-eq : (mode : String) (d : Dict String) → moded_flag mode d ≡ false → moded mode d ≡ d
unfolding moded moded_flag
moded-eq mode d h = ground (
  arith,
  ensured-eq npu_workload_config_label_key mode d,
  ensured-eq npu_worker_selector_label_key npu_worker_selector_dls d,
  dropped-eq npu_workload_config_label_key d,
  dropped-eq npu_worker_selector_label_key d,
)

pub adopted-eq :
    (mode by : String) (d : Dict String) → adopted_flag mode by d ≡ false → adopted mode by d ≡ d
unfolding adopted adopted_flag
adopted-eq mode by d h = ground (arith, moded-eq mode d, ensured-eq npu_mode_managed_by_label by d)

pub desired_npu_label_idem :
    (mode by k : String) (old : Option String)
    → desired_npu_label mode by k (desired_npu_label mode by k old)
      ≡ desired_npu_label mode by k old
unfolding desired_npu_label
desired_npu_label_idem mode by k old = ground arith
