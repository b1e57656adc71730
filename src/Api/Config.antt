-- ===== src/Api/Config.antt =====
-- api/config/v1/config.go: the configurations of the device plugin and of mig-parted that the
-- controller writes to ConfigMaps, with `reflect.DeepEqual` on them.
-- A pointer is an `Option`; so is a slice where nil and empty differ under DeepEqual.
use mathlib.Core.Bool.{Bool-discrete}
use accelerator_config_manag.Prelude.{String, Bool, Option, List, String-discrete}
use accelerator_config_manag.Prelude.Int.{ℤ, ℤ-discrete}
use accelerator_config_manag.Prelude.GoMap.{GoMap}
use accelerator_config_manag.Api.Foreign.{Foreign}

module _ (F : Foreign) where
  open F use {PluginFlags, GfdFlags, ResourceName, MigConfig, Any}

  pub record CommandLineFlags : Type 0 where
    pub mig_strategy : Option String
    pub fail_on_init_error : Option Bool
    pub mps_root : Option String
    pub nvidia_driver_root : Option String
    pub gds_enabled : Option Bool
    pub mofed_enabled : Option Bool
    pub use_node_feature_api : Option Bool
    pub plugin : Option PluginFlags
    pub gfd : Option GfdFlags

  pub record ReplicatedResource : Type 0 where
    pub name : ResourceName
    pub rename : ResourceName
    pub replicas : ℤ

  pub record ReplicatedResources : Type 0 where
    pub rename_by_default : Bool
    pub fail_requests_greater_than_one : Bool
    pub resources : Option (List ReplicatedResource)

  pub record Sharing : Type 0 where
    pub time_slicing : ReplicatedResources
    pub mps : Option ReplicatedResources

  pub record Config : Type 0 where
    pub version : String
    pub flags : CommandLineFlags
    pub sharing : Option Sharing

  pub record MigConfigSpec : Type 0 where
    pub device_filter : Any
    pub devices : Any
    pub mig_enabled : Bool
    pub mig_devices : MigConfig

  abbrev pub MigConfigSpecSlice : Type 0
  MigConfigSpecSlice = List MigConfigSpec

  -- A value of the map may be a nil slice.
  pub record Spec : Type 0 where
    pub version : String
    pub mig_configs : GoMap (Option MigConfigSpecSlice)

module _ (F : Foreign) where
  open F use {plugin_flags_equal, gfd_flags_equal, resource_name_equal, mig_config_equal, any_equal}

  pub Config-discrete : Discrete (Config F)
  Config-discrete = hlevel (
    String-discrete, Bool-discrete, ℤ-discrete, plugin_flags_equal, gfd_flags_equal,
    resource_name_equal,
  )

  pub slices-discrete : Discrete (Option (MigConfigSpecSlice F))
  slices-discrete = hlevel (String-discrete, Bool-discrete, mig_config_equal, any_equal)
