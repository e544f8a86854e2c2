-- ===== src/Config.antt =====
-- Managed configuration files (config_manager.py).
pub mod Targets
pub mod Disk
pub mod Manager
pub mod Writes
pub mod Installed
pub mod Temporary
pub mod Safety
pub mod Backups
pub mod Outcomes
pub mod Contract
pub mod Roundtrip
