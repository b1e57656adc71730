-- ===== src/Tests/Clients.antt =====
-- The clients and the library that the tests call, on a cluster of one node.
use accelerator_config_manag.Prelude.{none, some, [], ◌∷◌}
use accelerator_config_manag.Prelude.GoMap.{made}
use accelerator_config_manag.Prelude.Run.{Run, ok, panic}
use accelerator_config_manag.Api.Meta.{NamespacedName, ConfigMap, done}
use accelerator_config_manag.Api.Config.{Spec}
use accelerator_config_manag.Common.Outcome.{Outcome}
use accelerator_config_manag.Gpu.External.{Library, GpuClient}
use accelerator_config_manag.Npu.External.{NpuClient}
use accelerator_config_manag.Npu.Daemon.{NpuConfigReconciler}
use accelerator_config_manag.Tests.World.{Cluster, nodes_client}
use accelerator_config_manag.Tests.Resources.{texts, gpu_policy, npu_policy}

-- The ConfigMap holds a configuration of the policy `a-b`.
abbrev pub config_map : ConfigMap
config_map = record { name = "nvidia-plugin-configs"; entries = made (("a-b-1f2e3d", "x") ∷ []) }

abbrev pub gpu_client : GpuClient texts Cluster
gpu_client = record {
  nodes = nodes_client;
  get_policy = λ req s. (done (gpu_policy "time-slicing"), s);
  update_policy = λ policy s. (done policy, s);
  update_status = λ policy s. (none, s);
  get_config_map = λ req s. (done config_map, s);
  patch_config_map = λ base wanted s. (none, s);
}

abbrev pub npu_client : NpuClient Cluster
npu_client = record {
  nodes = nodes_client;
  get_policy = λ req s. (done npu_policy, s);
  update_policy = λ policy s. (done policy, s);
  update_status = λ policy s. (none, s);
}

-- A configuration of mig-parted with a key of the policy `a`.
abbrev pub mig_spec : Spec texts
mig_spec = record { version = "v1"; mig_configs = made (("a-1f2e3d", some []) ∷ []) }

abbrev pub library : Library texts
library = record {
  unmarshal_config = λ text. (
    record {
      version = text;
      flags = record {
        mig_strategy = none;
        fail_on_init_error = none;
        mps_root = none;
        nvidia_driver_root = none;
        gds_enabled = none;
        mofed_enabled = none;
        use_node_feature_api = none;
        plugin = none;
        gfd = none;
      };
      sharing = none;
    },
    none,
  );
  marshal_config = λ config. (config.version, none);
  unmarshal_spec = λ text. (mig_spec, none);
  marshal_spec = λ spec. (spec.version, none);
  marshal_slices = λ slices. ("", none);
  md5_sum = λ text. [];
  version = "v1";
  mig_strategy_none = "none";
  mig_strategy_single = "single";
}

abbrev pub req : NamespacedName
req = record { namespace = ""; name = "a" }

abbrev pub daemon : NpuConfigReconciler
daemon = record { node = "n1"; npu_policy = "a" }

abbrev pub bare : Cluster
bare name = ("kubernetes.io/hostname", name) ∷ []

-- The daemon after a reconciliation that does not panic.
abbrev pub daemon_of : Run (NpuConfigReconciler × Outcome) × Cluster → NpuConfigReconciler
daemon_of (ok (r, outcome), s) = r
daemon_of (panic, s) = daemon
