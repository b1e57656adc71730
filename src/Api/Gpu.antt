-- ===== src/Api/Gpu.antt =====
-- api/v1/gpunodepolicy_types.go: the GpuNodePolicy resource.
pub mod DeviceMode
use accelerator_config_manag.Prelude.{String, Bool, Option, List}
use accelerator_config_manag.Prelude.Int.{ℤ}
use accelerator_config_manag.Prelude.GoMap.{GoMap}
use accelerator_config_manag.Api.Foreign.{Foreign}
use accelerator_config_manag.Api.Meta.{ObjectMeta}
use accelerator_config_manag.Api.Config.{ReplicatedResource}

pub record ConfigSyncStatus : Type 0 where
  pub sync : Bool

pub record TimeSlicingModeStatus : Type 0 where
  pub enabled : Bool
  pub device_plugin : ConfigSyncStatus

pub record MigModeStatus : Type 0 where
  pub enabled : Bool
  pub device_plugin : ConfigSyncStatus
  pub mig_parted : ConfigSyncStatus

pub record DefaultModeStatus : Type 0 where
  pub enabled : Bool

pub record GenericModeStatus : Type 0 where
  pub enabled : Bool

pub record GpuNodeStatus : Type 0 where
  pub time_slicing_mode : Option TimeSlicingModeStatus
  pub mig_mode : Option MigModeStatus
  pub default_mode : Option DefaultModeStatus
  pub pass_through_mode : Option GenericModeStatus
  pub vcuda_mode : Option GenericModeStatus

pub record GpuNodePolicyStatus : Type 0 where
  pub nodes : GoMap GpuNodeStatus

pub record VcudaConfigSpec : Type 0 where

module _ (F : Foreign) where
  open F use {MigConfig}

  pub record MigConfigSpecSlice : Type 0 where
    pub device_filter : String
    pub devices : String
    pub mig_devices : MigConfig

  pub record MigConfigSpec : Type 0 where
    pub strategy : String
    pub config_slice : List MigConfigSpecSlice

  pub record TimeSlicingConfigSpec : Type 0 where
    pub rename_by_default : Bool
    pub fail_requests_greater_than_one : Bool
    pub resources : Option (List (ReplicatedResource F))

  pub record GpuNodePolicySpec : Type 0 where
    pub node_selector : GoMap String
    pub priority : ℤ
    pub mode : String
    pub vcuda_config : Option VcudaConfigSpec
    pub time_slicing_config : Option TimeSlicingConfigSpec
    pub mig_config : Option MigConfigSpec

  pub record GpuNodePolicy : Type 0 where
    pub metadata : ObjectMeta
    pub spec : GpuNodePolicySpec
    pub status : GpuNodePolicyStatus
