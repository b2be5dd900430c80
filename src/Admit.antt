-- ===== src/Admit.antt =====
-- bp_router/tasks.py `admit_task`: how a new task comes into the router. Only child modules.
pub mod Queries
pub mod Guards
pub mod Admission
pub mod Closing
pub mod Frozen
pub mod Created
pub mod Kept
pub mod Ids
pub mod Steps
pub mod Persisted
pub mod Lifecycle
pub mod History
pub mod Opened
pub mod Waiting
pub mod Retry
pub mod Depth
pub mod Admissible
pub mod Outcomes
pub mod Closed
mod Examples
mod Witnesses
