-- ===== src/Message.antt =====
-- The messages between server and clients (common/message_handler.py).
pub mod Protocol
pub mod RoundTrip
pub mod Validation
pub mod Handler
pub mod Validity
pub mod Wire
mod Tests
