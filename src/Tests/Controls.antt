-- ===== src/Tests/Controls.antt =====
-- The labels that the managers set and remove, on one node's labels, and the text helpers.
use mathlib.Core.List.{filter}
use accelerator_config_manag.Prelude.{
  String, Bool, true, false, not, ◌&&◌, ◌==◌, none, some, List, [], ◌∷◌, ◌++◌, ◌≡◌, ◌↔◌, refl,
  if◌then◌else◌,
}
use accelerator_config_manag.Prelude.Dict.{Dict, lookup, insert, erase, SameMap}
use accelerator_config_manag.Prelude.GoMap.{made}
use accelerator_config_manag.Prelude.Run.{ok}
use accelerator_config_manag.Api.Meta.{Node}
use accelerator_config_manag.Api.Gpu.{GpuNodeStatus}
use accelerator_config_manag.Api.Npu.{NpuNodeStatus}
use accelerator_config_manag.Labels.{
  ensure_row, ensure_label, ensure_config_label, drop_label, drop_row, drop_row_except,
}
use accelerator_config_manag.Common.Filter.Laws.{named}
use accelerator_config_manag.Common.Text.{string_in_array, remove_string, find_prefix_key}
use accelerator_config_manag.Common.Text.Laws.{
  IsPrefixKey, remove_string_lem, is_other, remove_string-append, find_prefix_key_lem,
}
use accelerator_config_manag.Gpu.Controls.{
  set_workload_config, update_gpu_state_labels, remove_all_gpu_mode_labels,
  is_device_plugin_config_updated, GpuModeManager,
}
use accelerator_config_manag.Gpu.Controls.Adopted.{set_workload_config-IsWorkload}
use accelerator_config_manag.Gpu.Controls.Update as GpuUpdate
use accelerator_config_manag.Gpu.Controls.Update.{
  update_gpu_state_labels_lem, update_gpu_state_labels_idem,
}
use accelerator_config_manag.Gpu.Controls.Released.{
  released_gpu_label, remove_all_gpu_mode_labels_lem, remove_all_gpu_mode_labels_idem,
}
use accelerator_config_manag.Gpu.Status.{init_gpu_node_policy_status}
use accelerator_config_manag.Gpu.Status.Laws as GpuStatus
use accelerator_config_manag.Gpu.Status.Laws.{
  is_gpu_mode, status_modes, init_gpu_node_policy_status_lem, init-is_device_plugin_config_updated,
}
use accelerator_config_manag.Npu.Controls.{update_npu_state_labels, remove_all_npu_mode_labels}
use accelerator_config_manag.Npu.Controls.Update as NpuUpdate
use accelerator_config_manag.Npu.Controls.Update.{
  update_npu_state_labels_lem, update_npu_state_labels_idem,
}
use accelerator_config_manag.Npu.Controls.Released.{
  released_npu_label, remove_all_npu_mode_labels_lem, remove_all_npu_mode_labels_idem,
}
use accelerator_config_manag.Npu.Status.{init_npu_node_policy_status}
use accelerator_config_manag.Npu.Status.Laws as NpuStatus
use accelerator_config_manag.Npu.Status.Laws.{init_npu_node_policy_status_lem}
use accelerator_config_manag.Tests.Resources.{
  texts, gpu_policy, gpu_manager, npu_policy, npu_manager,
}

-- The labels of a node that no policy manages.
abbrev plain : Dict String
plain = ("kubernetes.io/hostname", "n1") ∷ []

-- The labels that the GPU manager leaves on it.
abbrev gpu_adopted : Dict String
gpu_adopted =
    ("kubernetes.io/hostname", "n1")
    ∷ ("nvidia.com/gpu.workload.config", "container")
    ∷ ("ecns.easystack.io/gpu.deploy.managed-by", "a")
    ∷ ("nvidia.com/device-plugin.config", "a-1f2e3d")
    ∷ ("nvidia.com/mig.config", "all-disabled")
    ∷ []

update_gpu_state_labels_lem_example :
    (d' : Dict String) × (modified : Bool) × (update_gpu_state_labels gpu_manager (made plain)
      ≡ ok (made d', modified))
    × ((k : String)
        → lookup k d'
          ≡ GpuUpdate.wanted gpu_manager
              (set_workload_config-IsWorkload "time-slicing")
              k
              (lookup k plain))
    × ((modified ≡ false) ↔ SameMap d' plain)
update_gpu_state_labels_lem_example =
    update_gpu_state_labels_lem gpu_manager (set_workload_config-IsWorkload "time-slicing") plain

update_gpu_state_labels_idem_example :
    update_gpu_state_labels gpu_manager (made gpu_adopted) ≡ ok (made gpu_adopted, false)
unfolding update_gpu_state_labels ensure_row lookup set_workload_config ensure_label drop_label
    insert ensure_config_label
update_gpu_state_labels_idem_example =
    update_gpu_state_labels_idem gpu_manager (set_workload_config-IsWorkload "time-slicing") plain
      gpu_adopted true refl

abbrev gpu_released : Dict String
gpu_released = ("kubernetes.io/hostname", "n1") ∷ ("nvidia.com/gpu.deploy.operands", "false") ∷ []

remove_all_gpu_mode_labels_lem_example :
    (d' : Dict String) × (modified : Bool) × (remove_all_gpu_mode_labels (made gpu_adopted)
      ≡ ok (made d', modified))
    × ((k : String) → lookup k d' ≡ released_gpu_label k (lookup k gpu_adopted))
    × ((modified ≡ false) ↔ SameMap d' gpu_adopted)
remove_all_gpu_mode_labels_lem_example = remove_all_gpu_mode_labels_lem gpu_adopted

remove_all_gpu_mode_labels_idem_example :
    remove_all_gpu_mode_labels (made gpu_released) ≡ ok (made gpu_released, false)
unfolding remove_all_gpu_mode_labels ensure_label drop_label drop_row lookup erase insert
remove_all_gpu_mode_labels_idem_example =
    remove_all_gpu_mode_labels_idem gpu_adopted gpu_released true refl

abbrev npu_adopted : Dict String
npu_adopted =
    ("kubernetes.io/hostname", "n1")
    ∷ ("ecns.easystack.io/npu.workload.config", "vm")
    ∷ ("workerselector", "dls-worker-node")
    ∷ ("ecns.easystack.io/npu.deploy.managed-by", "a")
    ∷ []

abbrev npu_released : Dict String
npu_released = ("kubernetes.io/hostname", "n1") ∷ []

update_npu_state_labels_lem_example :
    (d' : Dict String) × (modified : Bool) × (update_npu_state_labels npu_manager (made plain)
      ≡ ok (made d', modified))
    × ((k : String) → lookup k d' ≡ NpuUpdate.wanted npu_manager k (lookup k plain))
    × ((modified ≡ false) ↔ SameMap d' plain)
update_npu_state_labels_lem_example = update_npu_state_labels_lem npu_manager plain

update_npu_state_labels_idem_example :
    update_npu_state_labels npu_manager (made npu_adopted) ≡ ok (made npu_adopted, false)
unfolding update_npu_state_labels ensure_row lookup ensure_label insert drop_label drop_row_except
    drop_row erase
update_npu_state_labels_idem_example =
    update_npu_state_labels_idem npu_manager plain npu_adopted true refl

remove_all_npu_mode_labels_lem_example :
    (d' : Dict String) × (modified : Bool) × (remove_all_npu_mode_labels (made npu_adopted)
      ≡ (made d', modified))
    × ((k : String) → lookup k d' ≡ released_npu_label k (lookup k npu_adopted))
    × ((modified ≡ false) ↔ SameMap d' npu_adopted)
remove_all_npu_mode_labels_lem_example = remove_all_npu_mode_labels_lem npu_adopted

remove_all_npu_mode_labels_idem_example :
    remove_all_npu_mode_labels (made npu_released) ≡ (made npu_released, false)
unfolding remove_all_npu_mode_labels drop_label drop_row lookup erase
remove_all_npu_mode_labels_idem_example =
    remove_all_npu_mode_labels_idem npu_adopted npu_released true refl

abbrev nodes : List Node
nodes = record { name = "n1"; labels = made plain } ∷ []

init_gpu_node_policy_status_lem_example :
    (d : Dict GpuNodeStatus) × (init_gpu_node_policy_status gpu_manager nodes
      ≡ ok (record gpu_manager { instance_ = GpuStatus.with_nodes (gpu_policy "time-slicing") d }))
    × ((k : String)
        → named k nodes ≡ true
        → (s : GpuNodeStatus) × (lookup k d ≡ some s) × (status_modes s ≡ "time-slicing" ∷ []))
    × ((k : String) → named k nodes ≡ false → lookup k d ≡ none)
unfolding is_gpu_mode
init_gpu_node_policy_status_lem_example = init_gpu_node_policy_status_lem gpu_manager nodes refl

init-is_device_plugin_config_updated_example :
    (m' : GpuModeManager texts) × (init_gpu_node_policy_status gpu_manager nodes ≡ ok m')
    × (is_device_plugin_config_updated m' "n1" ≡ ok true)
unfolding named
init-is_device_plugin_config_updated_example =
    init-is_device_plugin_config_updated gpu_manager nodes "n1" refl refl

init_npu_node_policy_status_lem_example :
    (d : Dict NpuNodeStatus) × (init_npu_node_policy_status npu_policy nodes
      ≡ ok (NpuStatus.with_nodes npu_policy d))
    × ((k : String)
        → lookup k d ≡ (if named k nodes then some (NpuStatus.initial_status none) else none))
init_npu_node_policy_status_lem_example = init_npu_node_policy_status_lem npu_policy nodes

abbrev finalizers : List String
finalizers = "x" ∷ "y" ∷ "x" ∷ []

remove_string_lem_example :
    ((remove_string "x" finalizers).0 ≡ filter (is_other "x") finalizers)
    × (string_in_array "y" (remove_string "x" finalizers).0
        ≡ (not ("x" == "y") && string_in_array "y" finalizers))
    × ((remove_string "x" finalizers).1 ≡ string_in_array "x" finalizers)
remove_string_lem_example = remove_string_lem "x" "y" finalizers

remove_string-append_example : remove_string "z" (finalizers ++ "z" ∷ []) ≡ (finalizers, true)
unfolding string_in_array
remove_string-append_example = remove_string-append "z" finalizers refl

find_prefix_key_lem_example : IsPrefixKey plain "kube" (find_prefix_key plain "kube")
find_prefix_key_lem_example = find_prefix_key_lem plain "kube"
