-- ===== src/Gpu/Controls/Adopted/Settled.antt =====
-- The result of updateGPUStateLabels: no label has changed exactly when it is false.
use accelerator_config_manag.Prelude.{String, false, ◌≡◌}
use accelerator_config_manag.Prelude.{arith, eq_iff, eq_refl, Option}
use accelerator_config_manag.Prelude.Dict.{Dict, lookup}
use accelerator_config_manag.Labels.{text_of}
use accelerator_config_manag.Labels.Laws.{
  differs-false, text_of-eq, ensured-eq, ensured_config-eq, dropped-eq,
}
use accelerator_config_manag.Gpu.Names.{
  device_plugin_default_config_label, mig_config_label, mode_managed_by_label,
  common_operands_label_key, gpu_workload_config_label_key,
}
use accelerator_config_manag.Gpu.Controls.Adopted.{
  desired_gpu_label, named, others_dropped, row_ensured, others_flag, row_flag, moded, adopted,
  adopted_flag,
}

-- The flag is down exactly when no label is other than wanted.
pub same-adopted_flag :
    (w by dp mig : String) (d : Dict String)
    → adopted_flag w by dp mig d ≡ false
    → (k : String) → desired_gpu_label w by dp mig k (lookup k d) ≡ lookup k d
unfolding adopted_flag desired_gpu_label
same-adopted_flag w by dp mig d h k = ground (
  arith,
  eq_iff mig_config_label k,
  eq_iff device_plugin_default_config_label k,
  eq_iff mode_managed_by_label k,
  eq_iff gpu_workload_config_label_key k,
  eq_iff common_operands_label_key k,
  differs-false (lookup mode_managed_by_label d) by,
  differs-false (lookup gpu_workload_config_label_key d) w,
  differs-false (lookup common_operands_label_key d) "false",
  text_of-eq (lookup mig_config_label d) mig,
  text_of-eq (lookup device_plugin_default_config_label d) dp,
  eq_iff mig "",
  eq_iff dp "",
  eq_iff (text_of (lookup mig_config_label d)) mig,
  eq_iff (text_of (lookup device_plugin_default_config_label d)) dp,
)

pub adopted_flag-false :
    (w by dp mig : String) (d : Dict String)
    → ((k : String) → desired_gpu_label w by dp mig k (lookup k d) ≡ lookup k d)
    → adopted_flag w by dp mig d ≡ false
unfolding adopted_flag desired_gpu_label
adopted_flag-false w by dp mig d h = ground (
  arith,
  h mig_config_label,
  h device_plugin_default_config_label,
  h mode_managed_by_label,
  h gpu_workload_config_label_key,
  h common_operands_label_key,
  eq_refl by,
  eq_refl w,
  eq_refl mig,
  eq_refl dp,
)

others_dropped-eq :
    (w : String) (d : Dict String) → others_flag w d ≡ false → others_dropped w d ≡ d
unfolding others_dropped others_flag
others_dropped-eq w d h =
    ground
      (arith, dropped-eq gpu_workload_config_label_key d, dropped-eq common_operands_label_key d)

row_ensured-eq : (w : String) (d : Dict String) → row_flag w d ≡ false → row_ensured w d ≡ d
unfolding row_ensured row_flag
row_ensured-eq w d h = ground (
  arith,
  ensured-eq gpu_workload_config_label_key w d,
  ensured-eq common_operands_label_key "false" d,
)

pub adopted-eq :
    (w by dp mig : String) (d : Dict String)
    → adopted_flag w by dp mig d ≡ false
    → adopted w by dp mig d ≡ d
unfolding adopted named moded adopted_flag
adopted-eq w by dp mig d h = ground (
  arith,
  others_dropped-eq w d,
  row_ensured-eq w d,
  ensured-eq mode_managed_by_label by d,
  ensured_config-eq device_plugin_default_config_label dp d,
  ensured_config-eq mig_config_label mig d,
)

pub desired_gpu_label_idem :
    (w by dp mig k : String) (old : Option String)
    → desired_gpu_label w by dp mig k (desired_gpu_label w by dp mig k old)
      ≡ desired_gpu_label w by dp mig k old
unfolding desired_gpu_label
desired_gpu_label_idem w by dp mig k old = ground arith
