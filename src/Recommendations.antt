-- ===== src/Recommendations.antt =====
-- The recommendations of store/session_store.py: the table `session_recommendations`, and the
-- synchronisation of a session's recommendations with the insights of its last analysis.
pub mod Rows
pub mod Sync
pub mod Invariant
pub mod Snapshot
pub mod Loop
pub mod Active
pub mod Success
