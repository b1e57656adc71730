-- ===== src/Api.antt =====
-- The resource types of api/v1 and api/config/v1, their metadata, and what third-party packages
-- define of them.
pub mod Foreign
pub mod Meta
pub mod Config
pub mod Gpu
pub mod Npu
