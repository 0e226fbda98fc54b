-- ===== src/Server/Application.antt =====
-- include/synapse/server.hpp: `application`, the methods that run on the worker. `none` stands for an
-- exception that leaves the function.
mod Tools
mod Prompts
mod Resources
mod Dispatch
unfoldable pub use Tools.*
unfoldable pub use Prompts.*
unfoldable pub use Resources.*
unfoldable pub use Dispatch.*
