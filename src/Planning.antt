-- ===== src/Planning.antt =====
-- The planning of a chat turn: shared/planning.py, interfaces/agent/turn_planning.py, and the planning
-- loop of core/runtime.py.
pub mod Decisions
pub mod Turn
pub mod Request
pub mod Execute
pub mod Loop
pub mod Calls
pub mod Reads
pub mod Signatures
pub mod Bounds
pub mod Verdicts
