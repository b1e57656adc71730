-- ===== src/Npu.antt =====
-- The NPU side: npu_controls.go, npunodepolicy_controller.go and npuconfig_controller.go of
-- internal/controller.
pub mod Names
pub mod Controls
pub mod Status
pub mod Nodes
pub mod External
pub mod Reconcile
pub mod Daemon
pub mod Protocol
