-- ===== src/Tasks.antt =====
-- bp_router/tasks.py: how the router ends tasks, and hands them on. Only child modules.
pub mod App
pub mod Complete
pub mod Cancel
pub mod Fail
pub mod Replay
pub mod Checks
pub mod Delegate
pub mod Results
pub mod Cancelled
pub mod Reaches
pub mod Failed
pub mod Subtree
pub mod Replayed
pub mod Handover
pub mod Chain
mod Examples
mod Handing
