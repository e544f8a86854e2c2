-- ===== src/Sessions.antt =====
-- Sessions, their messages, summaries and observations (store/session_store.py), and the session of a chat
-- (core/runtime.py).
pub mod Tables
pub mod Chat
pub mod Prepared
pub mod Observed
pub mod Latest
pub mod Upserts
