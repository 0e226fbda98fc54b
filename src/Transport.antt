-- ===== src/Transport.antt =====
-- include/synapse/transport.hpp: `stdio_transport`, one reader and one writer over native streams.
-- Every critical section under `mutex_` is an operation on the record `Transport`; what the clock,
-- the native streams and thread creation answer is an argument.
mod Defs
mod Send
mod Reader
mod Writer
pub mod Encoding
pub mod Queue
pub mod Output
pub mod Accounts
pub mod Depth
pub mod Framing
pub mod Closing
unfoldable pub use Defs.*
unfoldable pub use Send.*
unfoldable pub use Reader.*
unfoldable pub use Writer.*
