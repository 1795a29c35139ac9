-- ===== src/Types.antt =====
-- argo_dt/types.py
mod Enums
mod Envelope
mod Grants
unfoldable pub use Enums.*
unfoldable pub use Envelope.*
unfoldable pub use Grants.*
