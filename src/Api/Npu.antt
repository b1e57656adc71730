-- ===== src/Api/Npu.antt =====
-- api/v1/npunodepolicy_types.go: the NpuNodePolicy resource.
pub mod DeviceMode
pub mod SyncStatus
use accelerator_config_manag.Prelude.{String, Option, none, List}
use accelerator_config_manag.Prelude.Int.{ℤ}
use accelerator_config_manag.Prelude.GoMap.{GoMap, nil_map}
use accelerator_config_manag.Api.Meta.{ObjectMeta}

pub record VnpuConfigSpecSlice : Type 0 where
  pub device_filter : List String
  pub devices : List String
  pub vnpu_devices : GoMap String

pub record VnpuConfigSpec : Type 0 where
  pub config_slice : List VnpuConfigSpecSlice

pub record NpuNodePolicySpec : Type 0 where
  pub node_selector : GoMap String
  pub priority : ℤ
  pub mode : String
  pub vnpu_config : Option VnpuConfigSpec

pub record VTemplate : Type 0 where

pub record VnpuStatus : Type 0 where
  pub id : ℤ
  pub vgroup_id : ℤ
  pub container_id : ℤ
  pub status : ℤ
  pub template_name : String

pub record DeviceStatus : Type 0 where
  pub card_id : ℤ
  pub health : String
  pub vnpu_statuses : Option (List VnpuStatus)

pub record NpuNodeStatus : Type 0 where
  pub sync_status : String
  pub available_templates : GoMap VTemplate
  pub device_statuses : Option (List DeviceStatus)

-- `NpuNodeStatus{}`
abbrev pub no_status : NpuNodeStatus
no_status = record { sync_status = ""; available_templates = nil_map; device_statuses = none }

pub record NpuNodePolicyStatus : Type 0 where
  pub nodes : GoMap NpuNodeStatus

pub record NpuNodePolicy : Type 0 where
  pub metadata : ObjectMeta
  pub spec : NpuNodePolicySpec
  pub status : NpuNodePolicyStatus
