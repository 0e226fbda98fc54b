-- ===== src/Policy.antt =====
-- include/synapse/detail/server_policy.hpp: admission of tool calls, the check of output texts, and
-- the measure of encoded frames.
mod Double
mod Defs
pub mod Bucket
pub mod Frames
pub mod Text
unfoldable pub use Double.*
unfoldable pub use Defs.*
