-- ===== src/Windows.antt =====
-- include/synapse/detail/stdio_windows.hpp: synchronous I/O on pipes that can be cancelled.
mod Defs
mod Steps
pub mod Safety
pub mod Alone
pub mod Stopping
unfoldable pub use Defs.*
unfoldable pub use Steps.*
