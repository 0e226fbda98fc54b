-- ===== src/Protocol.antt =====
-- include/synapse/protocol.hpp: the JSON-RPC and MCP data types and their JSON codecs.
mod Types
mod Envelope
mod Descriptors
pub mod RoundTrip
unfoldable pub use Types.*
unfoldable pub use Envelope.*
unfoldable pub use Descriptors.*
