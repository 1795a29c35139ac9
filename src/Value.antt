-- ===== src/Value.antt =====
-- The JSON values that an event payload holds, with the parts of Python that read them.
mod Defs
mod Equal
mod Read
pub mod Laws
unfoldable pub use Defs.*
unfoldable pub use Equal.*
unfoldable pub use Read.*
