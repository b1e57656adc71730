-- ===== src/Tests/Resources.antt =====
-- A GPU policy and an NPU policy, and the managers that are made from them.
use accelerator_config_manag.Prelude.{String, true, false, none, [], ◌∷◌}
use accelerator_config_manag.Prelude.{String-discrete}
use accelerator_config_manag.Prelude.Int.{pos}
use accelerator_config_manag.Prelude.GoMap.{nil_map, made}
use accelerator_config_manag.Api.Foreign.{Foreign}
use accelerator_config_manag.Api.Meta.{ObjectMeta}
use accelerator_config_manag.Api.Gpu.{GpuNodePolicy}
use accelerator_config_manag.Api.Npu.{NpuNodePolicy}
use accelerator_config_manag.Gpu.Controls.{GpuModeManager, set_workload_config}
use accelerator_config_manag.Npu.Controls.{NpuModeManager}

-- Third-party types, as texts.
abbrev pub texts : Foreign
texts = record {
  PluginFlags = String;
  GfdFlags = String;
  ResourceName = String;
  MigConfig = String;
  Any = String;
  any_nil = "";
  any_string = λ text. text;
  plugin_flags_equal = String-discrete;
  gfd_flags_equal = String-discrete;
  resource_name_equal = String-discrete;
  mig_config_equal = String-discrete;
  any_equal = String-discrete;
}

abbrev pub meta : ObjectMeta
meta = record {
  name = "a";
  resource_version = "1";
  deletion_timestamp = none;
  finalizers = "release.finalizers.ecns.easystack.io" ∷ [];
}

abbrev pub gpu_policy : String → GpuNodePolicy texts
gpu_policy mode = record {
  metadata = meta;
  spec = record {
    node_selector = made (("gpu", "true") ∷ []);
    priority = pos 1;
    mode = mode;
    vcuda_config = none;
    time_slicing_config = none;
    mig_config = none;
  };
  status = record { nodes = nil_map };
}

-- As newGpuModeManager makes it, with a configuration that has just been written.
abbrev pub gpu_manager : GpuModeManager texts
gpu_manager = record {
  instance_ = gpu_policy "time-slicing";
  mode = "time-slicing";
  workload_config_name = set_workload_config "time-slicing";
  device_plugin_config_name = "a-1f2e3d";
  device_plugin_config_updated = true;
  mig_config_name = "all-disabled";
  mig_config_updated = false;
  managed_by = "a";
}

abbrev pub npu_policy : NpuNodePolicy
npu_policy = record {
  metadata = meta;
  spec = record {
    node_selector = made (("npu", "true") ∷ []);
    priority = pos 1;
    mode = "vm";
    vnpu_config = none;
  };
  status = record { nodes = nil_map };
}

abbrev pub npu_manager : NpuModeManager
npu_manager = record { instance_ = npu_policy; mode = "vm"; managed_by = "a" }
