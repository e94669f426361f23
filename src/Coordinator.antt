-- ===== src/Coordinator.antt =====
-- async_runtime/coordinator.py: what the coordinator does with the tasks.
pub mod External
pub mod State
pub mod Fork
pub mod Services
pub mod Start
pub mod Review
pub mod Reports
pub mod Verifiers
pub mod Questions
pub mod Handling
pub mod Cancel
pub mod Commands
pub mod Scheduler
pub mod Decisions
pub mod Reachable
pub mod Frame
pub mod Ended
pub mod Events
pub mod Samples
