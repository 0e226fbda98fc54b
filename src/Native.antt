-- ===== src/Native.antt =====
-- include/synapse/detail/stdio_posix.hpp: native I/O that can be stopped.
mod Defs
pub mod Kernel
pub mod Open
pub mod Giving
pub mod Ownership
pub mod Calls
pub mod Returning
pub mod Guard
pub mod Waiting
unfoldable pub use Defs.*
