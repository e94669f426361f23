-- ===== src/Memory.antt =====
-- memory/models.py: what the memory of past sessions is saved as.
pub mod Models
pub mod Packetizer
pub mod RoundTrip
pub mod Samples
