-- ===== src/Tasks.antt =====
-- async_runtime/tasks.py and task_store.py: tasks, their registry, and how they are saved.
pub mod Status
pub mod Spec
pub mod Report
pub mod Agents
pub mod Packet
pub mod Record
pub mod Registry
pub mod Samples
