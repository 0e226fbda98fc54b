-- ===== src/Client.antt =====
-- include/synapse/client.hpp and include/synapse/sse_transport.hpp.
mod Defs
mod Calls
mod Sse
pub mod Promises
pub mod History
unfoldable pub use Defs.*
unfoldable pub use Calls.*
unfoldable pub use Sse.*
