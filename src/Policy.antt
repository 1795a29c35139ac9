-- ===== src/Policy.antt =====
-- argo_dt/policy.py: the default-deny evaluation of projections and of actions.
mod Defs
pub mod Projection
pub mod Action
unfoldable pub use Defs.*
