-- ===== src/Uri.antt =====
-- include/synapse/server.hpp: `valid_resource_uri`.
mod Defs
pub mod Fuel
unfoldable pub use Defs.*
