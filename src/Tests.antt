-- ===== src/Tests.antt =====
-- Runs of the code on concrete inputs, one for each theorem that has conditions.
pub mod Storage
pub mod Files
pub mod Databases
pub mod Indexes
pub mod Log
pub mod Schemas
pub mod Evolution
pub mod Caching
pub mod Filtering
