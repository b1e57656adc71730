-- ===== src/Npu/Controls.antt =====
-- internal/controller/npu_controls.go: the manager of one policy's mode, and the labels that it sets
-- on nodes. The logger is not modelled.
pub mod Adopted
pub mod Update
pub mod Released
use accelerator_config_manag.Prelude.{String, Bool, false, ◌||◌, [], ◌∷◌}
use accelerator_config_manag.Prelude.Run.{Run, ok, ◌>>=◌}
use accelerator_config_manag.Api.Npu.{NpuNodePolicy}
use accelerator_config_manag.Labels.{
  Labels, Change, Table, table_row, ensure_row, ensure_label, drop_label, drop_row,
  drop_other_modes,
}
use accelerator_config_manag.Npu.Names.{npu_mode_managed_by_label, npu_mode_labels}

pub record NpuModeManager : Type 0 where
  pub instance_ : NpuNodePolicy
  pub mode : String
  pub managed_by : String

abbrev pub new_npu_mode_manager : NpuNodePolicy → NpuModeManager
new_npu_mode_manager policy = record {
  instance_ = policy;
  mode = policy.spec.mode;
  managed_by = policy.metadata.name;
}

unfoldable pub remove_npu_mode_labels : NpuModeManager → Labels → Change
unfolding drop_other_modes
remove_npu_mode_labels m labels =
    drop_other_modes m.mode (table_row m.mode npu_mode_labels) npu_mode_labels (labels, false)

unfoldable pub add_npu_mode_labels : NpuModeManager → Labels → Run Change
add_npu_mode_labels m labels = do
  c ← ensure_row (table_row m.mode npu_mode_labels) (labels, false)
  ensure_label npu_mode_managed_by_label m.managed_by c

unfoldable pub update_npu_state_labels : NpuModeManager → Labels → Run Change
unfolding remove_npu_mode_labels add_npu_mode_labels
update_npu_state_labels m labels = do
  let (labels', removed) = remove_npu_mode_labels m labels
  (labels'', added) ← add_npu_mode_labels m labels'
  ok (labels'', removed || added)

-- The loop over the rows in `removeAllNPUModeLabels`.
unfoldable pub drop_rows : Table → Change → Change
drop_rows [] c = c
drop_rows ((_, row) ∷ table) c = drop_rows table (drop_row row c)

-- Deleting from a nil map is safe, so this function never panics.
unfoldable pub remove_all_npu_mode_labels : Labels → Change
unfolding drop_rows
remove_all_npu_mode_labels labels =
    drop_label npu_mode_managed_by_label (drop_rows npu_mode_labels (labels, false))
