-- ===== src/Cmd.antt =====
-- The two programs, cmd/config-manager/main.go and cmd/npu-config-daemon/main.go, and the
-- SetupWithManager functions that they call.
pub mod Runtime
pub mod Setup
pub mod Exit
pub mod Manager
pub mod Daemon
