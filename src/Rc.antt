-- ===== src/Rc.antt =====
-- The registers of the run control (client/hardware/rc/rc_interface.py).
pub mod Registers
pub mod ChannelCommands
pub mod ListCommands
pub mod Acquisition
pub mod Monitoring
pub mod Selection
pub mod Bounds
pub mod Requested
pub mod Writes
pub mod Merge
pub mod Applied
pub mod SingleChannel
mod Tests
