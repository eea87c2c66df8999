-- ===== src/Api.antt =====
-- The HTTP gateway, apps/api/src.
pub mod Http
pub mod Config
pub mod Files
pub mod Admission
pub mod Execute
pub mod Jobs
pub mod Auth
pub mod Stdin
pub mod Control
pub mod Blobs
pub mod ChannelAuth
pub mod Presign
pub mod Routes
pub mod App
