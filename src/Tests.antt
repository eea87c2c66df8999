-- ===== src/Tests.antt =====
-- Runs of the model on concrete inputs.
pub mod Fixtures
pub mod Gateway
pub mod Requests
pub mod Hook
pub mod Client
pub mod App
pub mod Concurrent
pub mod Stub
pub mod Accepted
pub mod Provider
pub mod Typed
pub mod Subscription
pub mod Example
pub mod EndToEnd
