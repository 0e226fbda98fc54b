-- ===== src/Tests.antt =====
-- The theorems at concrete inputs.
mod Fixtures
mod Wire
mod Systems
mod Schemas
mod Threads
mod Serving
mod Clients
