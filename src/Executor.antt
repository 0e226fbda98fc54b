-- ===== src/Executor.antt =====
-- include/synapse/detail/owned_executor.hpp: one worker thread with a bounded queue. Every critical
-- section under `mutex_` is one operation on the record `Executor`; `Step` interleaves them.
mod Defs
mod Worker
pub mod Queue
pub mod Validity
pub mod Invariant
pub mod Shutdown
unfoldable pub use Defs.*
unfoldable pub use Worker.*
