-- ===== src/Sync.antt =====
-- argo_dt/sync.py: what transport adapters have in common.
pub mod Text
pub mod Base64
pub mod Utf8
pub mod Position
pub mod Cursor
pub mod Limits
pub mod Subjects
pub mod Broker
pub mod Durable
pub mod KeyRing
pub mod Frames
pub mod Session
pub mod Relay
pub mod Telemetry
