-- ===== src/Channels.antt =====
-- The channels of a command, from the user to the hardware.
pub mod Definitions
pub mod Agreement
mod Tests
