-- ===== src/Ownership.antt =====
-- argo_dt/ownership.py: which producer role may write which event type.
mod Defs
pub mod Laws
unfoldable pub use Defs.*
