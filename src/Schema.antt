-- ===== src/Schema.antt =====
-- include/synapse/detail/schema_validator.hpp: what a compiled schema answers.
mod Types
mod Validate
pub mod Backend
pub mod Nodes
pub mod Universe
pub mod Throughout
pub mod Registration
pub mod Inspection
pub mod Measure
pub mod Counting
pub mod Growth
pub mod Additions
pub mod Extending
pub mod Bodies
pub mod Loads
pub mod Dialects
pub mod Compile
pub mod Termination
pub mod Registered
pub mod Compiled
pub mod Offline
pub mod Answers
unfoldable pub use Types.*
unfoldable pub use Validate.*
