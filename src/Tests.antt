-- ===== src/Tests.antt =====
-- Runs of the model at concrete inputs, and each result at an input that meets its conditions.
pub mod Resources
pub mod Comparing
pub mod Plugins
pub mod Routes
pub mod Running
pub mod Provisioning
pub mod Hosts
pub mod Upstreams
pub mod Acks
pub mod Exchanging
pub mod Serving
pub mod Zones
pub mod Redirecting
pub mod Reconciling
pub mod Streaming
pub mod Connecting
pub mod Locking
