-- ===== src/Server.antt =====
-- include/synapse/server.hpp: the server, over any transport.
mod Types
mod Register
mod Emit
mod Application
mod Session
mod Receive
mod Worker
mod Lifecycle
pub mod Steps
pub mod Specification
pub mod View
pub mod Order
pub mod Progress
pub mod Advance
pub mod Monotone
pub mod Sessions
pub mod Replies
pub mod Gate
pub mod Quiet
pub mod Handshake
pub mod Stdio
pub mod Registry
pub mod Inflight
pub mod Sending
unfoldable pub use Types.*
unfoldable pub use Register.*
unfoldable pub use Emit.*
unfoldable pub use Application.*
unfoldable pub use Session.*
unfoldable pub use Receive.*
unfoldable pub use Worker.*
unfoldable pub use Lifecycle.*
