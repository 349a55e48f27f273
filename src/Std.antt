-- ===== src/Std.antt =====
-- What the code uses of Go's standard library and runtime: error values, byte strings,
-- host and port texts, decimal numbers.
mod Results
mod Strings
pub mod Unicode
pub mod HostPort
pub mod Paths
pub mod Streams
pub mod Duration
pub mod Decimal
pub mod Base64
unfoldable pub use Results.*
unfoldable pub use Strings.*
