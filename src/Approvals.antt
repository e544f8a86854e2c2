-- ===== src/Approvals.antt =====
-- The tool approvals of store/session_store.py: a privileged tool call waits in the table
-- `tool_approvals` until an operator confirms it.
pub mod Rows
pub mod Methods
pub mod Invariant
pub mod Lookup
pub mod Lifecycle
pub mod Exclusive
pub mod Matching
pub mod Open
