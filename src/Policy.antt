-- ===== src/Policy.antt =====
-- The operator policy: policy/config.py reads it from a TOML document, policy/engine.py decides with it
-- about every tool call.
pub mod Rules
pub mod Engine
pub mod Permits
pub mod Parse
pub mod WellFormed
pub mod Loader
