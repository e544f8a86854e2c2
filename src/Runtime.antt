-- ===== src/Runtime.antt =====
-- MasterControlRuntime (core/runtime.py).
pub mod State
pub mod Commands
pub mod Claims
pub mod RunTool
pub mod Keeps
pub mod Authority
pub mod Trail
pub mod Settlement
pub mod Consistency
pub mod Crash
pub mod Approve
pub mod Idle
pub mod Approval
pub mod Recommend
pub mod Accepted
pub mod Statuses
pub mod Changes
