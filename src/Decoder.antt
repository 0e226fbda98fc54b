-- ===== src/Decoder.antt =====
-- include/synapse/detail/message_decoder.hpp: from a JSON value to a message, or to the diagnostic
-- that may be sent back.
mod Defs
pub mod Diagnostics
pub mod Requests
unfoldable pub use Defs.*
