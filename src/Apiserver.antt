-- ===== src/Apiserver.antt =====
-- internal/apiserver: the aggregated API server.
pub mod Stream
pub mod Relay
pub mod Secrets
pub mod Attach
pub mod Guard
pub mod Pods
pub mod Serving
