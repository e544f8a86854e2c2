-- ===== src/Tools.antt =====
-- The tools (tools/): their specifications, the readers of their arguments, and those that call systemctl.
pub mod Spec
pub mod Attempt
pub mod Arguments
pub mod Readers
pub mod Units
pub mod UnitNames
pub mod Machine
pub mod Services
pub mod ServiceTools
pub mod Journal
pub mod Issued
pub mod Preflight
pub mod Listing
pub mod ConfigTools
