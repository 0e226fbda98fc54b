-- ===== src/Process.antt =====
-- include/synapse/process_transport.hpp: the transport of a client over the pipes of a child process.
mod Defs
pub mod Lines
pub mod Ending
pub mod Spawn
pub mod Handles
unfoldable pub use Defs.*
