-- ===== src/Aggregate.antt =====
-- argo_dt/aggregate.py: the state of a twin as the fold of its events.
mod State
mod Validate
mod Handlers
mod Reviews
mod Apply
mod View
mod Marks
mod Frames
pub mod Citations
pub mod Passing
pub mod Validity
pub mod Invariant
pub mod Replay
pub mod Extends
pub mod Deletion
pub mod Accepted
pub mod Selected
unfoldable pub use State.*
unfoldable pub use Validate.*
unfoldable pub use Handlers.*
unfoldable pub use Reviews.*
unfoldable pub use Apply.*
unfoldable pub use View.*
