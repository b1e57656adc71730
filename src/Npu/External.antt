-- ===== src/Npu/External.antt =====
-- The client of the NPU controllers, which is not part of the repository.
use accelerator_config_manag.Api.Meta.{NamespacedName, Error, Fallible}
use accelerator_config_manag.Api.Npu.{NpuNodePolicy}
use accelerator_config_manag.Common.Client.{NodeClient}

pub record NpuClient (S : Type 0) : Type 0 where
  pub nodes : NodeClient S
  pub get_policy : NamespacedName → S → Fallible NpuNodePolicy × S
  -- `Update` fills the policy in from the answer.
  pub update_policy : NpuNodePolicy → S → Fallible NpuNodePolicy × S
  -- `Status().Update`
  pub update_status : NpuNodePolicy → S → Error × S
