-- ===== src/Board.antt =====
-- The registers of the high voltage boards (client/hardware/hv/hvmodbus.py).
pub mod Access
pub mod Coils
pub mod Readings
pub mod Calibration
pub mod Settings
pub mod CalibrationRoundTrip
pub mod Search
pub mod Serials
pub mod SerialBytes
pub mod SerialTexts
pub mod SerialRoundTrip
mod Tests
