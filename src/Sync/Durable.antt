-- ===== src/Sync/Durable.antt =====
-- `DurableSubscription` of argo_dt/sync.py: replay up to a head, then live events, each once.
mod State
mod Loop
mod Acks
pub mod Moves
pub mod Chain
mod Pages
pub mod Ends
mod Rounds
pub mod Settled
pub mod Window
pub mod Kept
pub mod Opened
unfoldable pub use State.*
unfoldable pub use Loop.*
unfoldable pub use Acks.*
