-- ===== src/Leases.antt =====
-- async_runtime/leases.py: who may write a file.
pub mod Server
pub mod Client
pub mod Samples
