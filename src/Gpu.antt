-- ===== src/Gpu.antt =====
-- The GPU side: gpu_controls.go and gpunodepolicy_controller.go of internal/controller.
pub mod Names
pub mod Controls
pub mod Status
pub mod Nodes
pub mod External
pub mod ConfigMaps
pub mod Reconcile
