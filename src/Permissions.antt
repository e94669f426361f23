-- ===== src/Permissions.antt =====
-- permissions/ and policy/: which shell commands and file accesses the agent may make.
pub mod Types
pub mod Rules
pub mod Shell
pub mod Engine
pub mod Samples
pub mod Segments
pub mod Downloads
pub mod Severity
pub mod Modes
pub mod Files
pub mod Denials
pub mod Policy
pub mod Store
