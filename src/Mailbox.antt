-- ===== src/Mailbox.antt =====
-- async_runtime/mailbox.py: the messages between workers and the main agent.
pub mod Message
pub mod Store
pub mod Views
pub mod Samples
