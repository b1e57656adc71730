-- ===== src/Gpu/External.antt =====
-- What the GPU controller calls outside the repository: the client, YAML, MD5 and the constants of
-- NVIDIA's device plugin.
use accelerator_config_manag.Prelude.{ℕ, String, List}
use accelerator_config_manag.Api.Foreign.{Foreign}
use accelerator_config_manag.Api.Meta.{ConfigMap, NamespacedName, Error, Fallible}
use accelerator_config_manag.Api.Config.{Config, Spec, MigConfigSpecSlice}
use accelerator_config_manag.Api.Gpu.{GpuNodePolicy}
use accelerator_config_manag.Common.Client.{NodeClient}

-- `sigs.k8s.io/yaml`: Unmarshal into a zero value leaves a value also when it fails.
pub record Library (F : Foreign) : Type 0 where
  pub unmarshal_config : String → Config F × Error
  pub marshal_config : Config F → String × Error
  pub unmarshal_spec : String → Spec F × Error
  pub marshal_spec : Spec F → String × Error
  pub marshal_slices : MigConfigSpecSlice F → String × Error
  -- `md5.Sum`
  pub md5_sum : String → List ℕ
  -- `nvdpv1.Version`, `nvdpv1.MigStrategyNone` and `nvdpv1.MigStrategySingle`
  pub version : String
  pub mig_strategy_none : String
  pub mig_strategy_single : String

pub record GpuClient (F : Foreign) (S : Type 0) : Type 0 where
  pub nodes : NodeClient S
  pub get_policy : NamespacedName → S → Fallible (GpuNodePolicy F) × S
  -- `Update` fills the policy in from the answer.
  pub update_policy : GpuNodePolicy F → S → Fallible (GpuNodePolicy F) × S
  -- `Status().Update`
  pub update_status : GpuNodePolicy F → S → Error × S
  pub get_config_map : NamespacedName → S → Fallible ConfigMap × S
  -- `Patch(ctx, configMap, client.MergeFrom(base))`: the base, and the ConfigMap.
  pub patch_config_map : ConfigMap → ConfigMap → S → Error × S
