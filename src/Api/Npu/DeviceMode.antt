-- ===== src/Api/Npu/DeviceMode.antt =====
-- The named values of `DeviceMode` for NPUs.
use accelerator_config_manag.Prelude.{String}

abbrev pub container : String
container = "container"

abbrev pub virtualization : String
virtualization = "vm"
