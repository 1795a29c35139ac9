-- ===== src/Store.antt =====
-- argo_dt/event_store.py: the append-only ledger.
mod Defs
mod Index
mod Append
mod Load
mod Snapshots
mod Outbox
mod Lineage
mod Invalidations
pub mod Chain
pub mod Appends
pub mod Races
pub mod Stream
pub mod Saved
pub mod Leases
pub mod Claims
pub mod Fencing
pub mod Unseen
pub mod Reach
pub mod Closure
pub mod Converse
pub mod Queue
pub mod Processed
pub mod Releases
unfoldable pub use Defs.*
unfoldable pub use Index.*
unfoldable pub use Append.*
unfoldable pub use Load.*
unfoldable pub use Snapshots.*
unfoldable pub use Outbox.*
unfoldable pub use Lineage.*
unfoldable pub use Invalidations.*
