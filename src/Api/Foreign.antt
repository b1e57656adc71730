-- ===== src/Api/Foreign.antt =====
-- Types that the resources name and third-party packages define, with `reflect.DeepEqual` on them
-- (NVIDIA's k8s-device-plugin and mig-parted, `interface{}` values that come out of YAML).
use accelerator_config_manag.Prelude.{String}

pub record Foreign : Type 1 where
  -- `nvdpv1.PluginCommandLineFlags`, `nvdpv1.GFDCommandLineFlags`, `nvdpv1.ResourceName`
  pub PluginFlags : Type 0
  pub GfdFlags : Type 0
  pub ResourceName : Type 0
  -- `types.MigConfig` of mig-parted
  pub MigConfig : Type 0
  -- `interface{}`
  pub Any : Type 0
  pub any_nil : Any
  pub any_string : String → Any
  pub plugin_flags_equal : Discrete PluginFlags
  pub gfd_flags_equal : Discrete GfdFlags
  pub resource_name_equal : Discrete ResourceName
  pub mig_config_equal : Discrete MigConfig
  pub any_equal : Discrete Any
