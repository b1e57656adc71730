-- ===== src/Gpu/Controls/Adopted.antt =====
-- What updateGPUStateLabels leaves on a node, label by label, and what its result says.
pub mod Settled
use accelerator_config_manag.Prelude.{
  String, Bool, true, false, ◌||◌, ◌&&◌, not, none, some, ◌==◌, ◌≡◌,
}
use accelerator_config_manag.Prelude.{
  sym, refl, arith, eq_iff, eq_refl, if◌then◌else◌, Option, Bool-cases, inl, inr,
}
use accelerator_config_manag.Prelude.Dict.{Dict, lookup, has}
use accelerator_config_manag.Prelude.GoMap.{made}
use accelerator_config_manag.Prelude.Run.{ok}
use accelerator_config_manag.Api.Foreign.{Foreign}
use accelerator_config_manag.Labels.{text_of, table_row, differs, ensure_row}
use accelerator_config_manag.Labels.Laws.{
  ensured, ensured_config, dropped, config_differs, ensure_label_made, ensure_config_label_made,
  differs-false, text_of-eq, drop_label_made, lookup-ensured, lookup-ensured_config, lookup-dropped,
  ensured-eq, ensured_config-eq, dropped-eq,
}
use accelerator_config_manag.Gpu.Names.{
  device_plugin_default_config_label, mig_config_label, mode_managed_by_label,
  common_operands_label_key, gpu_workload_config_label_key, gpu_workload_config_none,
  gpu_workload_config_container, gpu_workload_config_vm_passthrough, gpu_workload_config_vcuda,
  gpu_mode_labels,
}
use accelerator_config_manag.Gpu.Controls.{
  GpuModeManager, set_workload_config, update_gpu_state_labels, remove_gpu_mode_labels,
}

-- The workload configurations that setWorkloadConfig gives.
pub data IsWorkload (w : String) : Type 0 where
  none_ : w ≡ gpu_workload_config_none → IsWorkload w
  container : w ≡ gpu_workload_config_container → IsWorkload w
  vm_passthrough : w ≡ gpu_workload_config_vm_passthrough → IsWorkload w
  vcuda : w ≡ gpu_workload_config_vcuda → IsWorkload w

-- The label that is wanted under a key, from the one that is there, for a workload configuration and
-- the names of the policy, the device plugin's configuration and the MIG configuration.
pub desired_gpu_label : String → String → String → String → String → Option String → Option String
desired_gpu_label w by dp mig k old =
    if mig_config_label == k && not (mig == "")
    then some mig
    else if device_plugin_default_config_label == k && not (dp == "")
    then some dp
    else if mode_managed_by_label == k
    then some by
    else if gpu_workload_config_label_key == k
    then (if w == gpu_workload_config_none then none else some w)
    else if common_operands_label_key == k
    then (if w == gpu_workload_config_none then some "false" else none)
    else old

-- The three labels that every mode has.
named : String → String → String → Dict String → Dict String
named by dp mig d =
    ensured_config mig_config_label mig
      (ensured_config device_plugin_default_config_label dp (ensured mode_managed_by_label by d))

lookup-named :
    (by dp mig : String) (d : Dict String) (k : String)
    → lookup k (named by dp mig d) ≡ (
        if mig_config_label == k && not (mig == "")
        then some mig
        else if device_plugin_default_config_label == k && not (dp == "")
        then some dp
        else if mode_managed_by_label == k
        then some by
        else lookup k d)
unfolding named
lookup-named by dp mig d k = simp (lookup-ensured_config, lookup-ensured) (ground arith)

-- The labels of the other workload configurations removed, and then those of this one set.
others_dropped : String → Dict String → Dict String
others_dropped w d =
    if w == gpu_workload_config_none
    then dropped gpu_workload_config_label_key
        (dropped gpu_workload_config_label_key (dropped gpu_workload_config_label_key d))
    else dropped common_operands_label_key d

row_ensured : String → Dict String → Dict String
row_ensured w d =
    if w == gpu_workload_config_none
    then ensured common_operands_label_key "false" d
    else ensured gpu_workload_config_label_key w d

others_flag : String → Dict String → Bool
others_flag w d =
    if w == gpu_workload_config_none
    then has gpu_workload_config_label_key d
    else has common_operands_label_key d

row_flag : String → Dict String → Bool
row_flag w d =
    if w == gpu_workload_config_none
    then differs (lookup common_operands_label_key d) "false"
    else differs (lookup gpu_workload_config_label_key d) w

moded : String → Dict String → Dict String
unfolding others_dropped row_ensured
moded w d = row_ensured w (others_dropped w d)

distinct_keys :
    (k : String)
    → (common_operands_label_key == k) ≡ true
    → (gpu_workload_config_label_key == k) ≡ false
distinct_keys k e = rw (sym ((eq_iff common_operands_label_key k).0 e)) refl

lookup-moded :
    (w : String) (d : Dict String) (k : String)
    → lookup k (moded w d) ≡ (
        if gpu_workload_config_label_key == k
        then (if w == gpu_workload_config_none then none else some w)
        else if common_operands_label_key == k
        then (if w == gpu_workload_config_none then some "false" else none)
        else lookup k d)
unfolding moded
lookup-moded w d k = elim (Bool-cases (w == gpu_workload_config_none)) [
  | inl e ↦ rw e (simp (lookup-ensured, lookup-dropped) (ground (arith, distinct_keys k)))
  | inr e ↦ rw e (simp (lookup-ensured, lookup-dropped) (ground arith))
]

-- The labels that updateGPUStateLabels leaves.
pub adopted : String → String → String → String → Dict String → Dict String
adopted w by dp mig d = named by dp mig (moded w d)

pub lookup-adopted :
    (w by dp mig : String) (d : Dict String) (k : String)
    → lookup k (adopted w by dp mig d) ≡ desired_gpu_label w by dp mig k (lookup k d)
unfolding adopted desired_gpu_label
lookup-adopted w by dp mig d k = simp (lookup-named, lookup-moded)

-- The result of updateGPUStateLabels: the flags of its steps.
pub adopted_flag : String → String → String → String → Dict String → Bool
unfolding others_flag row_flag
adopted_flag w by dp mig d =
    others_flag w d
    || row_flag w d
    || differs (lookup mode_managed_by_label d) by
    || config_differs device_plugin_default_config_label dp d
    || config_differs mig_config_label mig d

remove_parts :
    {F : Foreign} (m : GpuModeManager F) (d : Dict String)
    → IsWorkload m.workload_config_name
    → remove_gpu_mode_labels m (made d)
      ≡ (made (others_dropped m.workload_config_name d), others_flag m.workload_config_name d)
unfolding remove_gpu_mode_labels others_dropped others_flag lookup
remove_parts m d (none_ e) = rw e (simp (drop_label_made, lookup-dropped) (ground arith))
remove_parts m d (container e) = rw e (simp drop_label_made)
remove_parts m d (vm_passthrough e) = rw e (simp drop_label_made)
remove_parts m d (vcuda e) = rw e (simp drop_label_made)

row_parts :
    (w : String) (d : Dict String)
    → IsWorkload w
    → ensure_row (table_row w gpu_mode_labels) (made d, false)
      ≡ ok (made (row_ensured w d), row_flag w d)
unfolding ensure_row row_ensured row_flag lookup
row_parts w d (none_ e) = rw e (simp ensure_label_made)
row_parts w d (container e) = rw e (simp ensure_label_made)
row_parts w d (vm_passthrough e) = rw e (simp ensure_label_made)
row_parts w d (vcuda e) = rw e (simp ensure_label_made)

row_flag-others_dropped :
    (w : String) (d : Dict String) → row_flag w (others_dropped w d) ≡ row_flag w d
unfolding row_flag others_dropped
row_flag-others_dropped w d = elim (Bool-cases (w == gpu_workload_config_none)) [
  | inl e ↦ rw e (simp lookup-dropped)
  | inr e ↦ rw e (simp lookup-dropped)
]

pub update_gpu_state_labels_parts :
    {F : Foreign} (m : GpuModeManager F) (d : Dict String)
    → IsWorkload m.workload_config_name
    → update_gpu_state_labels m (made d)
      ≡ ok (
        made (
            adopted m.workload_config_name m.managed_by m.device_plugin_config_name
              m.mig_config_name d),
        adopted_flag m.workload_config_name m.managed_by m.device_plugin_config_name
            m.mig_config_name d,
      )
unfolding update_gpu_state_labels adopted named moded adopted_flag
update_gpu_state_labels_parts m d w =
    simp
      (
        remove_parts m d w,
        row_parts m.workload_config_name _ w,
        ensure_label_made,
        ensure_config_label_made,
        row_flag-others_dropped,
        lookup-moded,
        lookup-ensured,
        lookup-ensured_config,
      )
      (ground arith)

pub set_workload_config-IsWorkload : (mode : String) → IsWorkload (set_workload_config mode)
unfolding set_workload_config
set_workload_config-IsWorkload mode =
    grind
      (arith, IsWorkload.vcuda, IsWorkload.container, IsWorkload.vm_passthrough, IsWorkload.none_)
