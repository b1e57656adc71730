-- ===== src/Api/Npu/SyncStatus.antt =====
-- The named values of the string type `SyncStatus`.
use accelerator_config_manag.Prelude.{String}

abbrev pub initializing : String
initializing = "Initializing"

abbrev pub initialized : String
initialized = "Initialized"

abbrev pub in_progress : String
in_progress = "InProgress"

abbrev pub succeeded : String
succeeded = "Succeeded"
