-- ===== src/Service.antt =====
-- argo_dt/service.py, and `TwinAggregate.rebuild` over a store.
pub mod Streams
mod Defs
mod Restamp
pub mod Replayable
pub mod Kept
unfoldable pub use Defs.*
