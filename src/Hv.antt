-- ===== src/Hv.antt =====
-- The channel lists of class HV (client/hardware/hv/hv_interface.py).
pub mod Lists
pub mod Commands
pub mod Counts
pub mod Invariant
pub mod FixedBad
pub mod Kept
pub mod Configured
pub mod KeptByRamps
pub mod KeptByOthers
pub mod KeptByBoards
pub mod Runs
pub mod Replies
pub mod Ramps
pub mod PowerState
pub mod AddressChange
pub mod Serials
pub mod Trimmed
pub mod Monitoring
pub mod Reports
pub mod Snapshots
pub mod AcqConfiguration
pub mod OkOffRecovery
mod Tests
mod BoardTests
