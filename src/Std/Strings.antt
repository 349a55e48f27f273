-- ===== src/Std/Strings.antt =====
-- Go strings as lists of bytes, and the laws of their operations.
mod Defs
mod Laws
unfoldable pub use Defs.*
pub use Laws.*
