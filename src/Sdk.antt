-- ===== src/Sdk.antt =====
-- packages/code-runner-sdk-node/src: the client for Node.
pub mod Errors
pub mod Files
pub mod Uri
pub mod Client
pub mod ChannelAuth
