-- ===== src/Api/Gpu/DeviceMode.antt =====
-- The named values of the string type `DeviceMode` for GPUs. The value may also be any other text.
use accelerator_config_manag.Prelude.{String}

abbrev pub default : String
default = "default"

abbrev pub time_slicing : String
time_slicing = "time-slicing"

abbrev pub mig : String
mig = "mig"

abbrev pub pass_through : String
pass_through = "pass-through"

abbrev pub vcuda : String
vcuda = "vcuda"
