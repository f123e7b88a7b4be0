-- ===== src/Replies.antt =====
-- The waiters of replies (common/reply_handler.py).
pub mod Handler
pub mod Waiters
pub mod Isolation
pub mod Guarantees
mod Tests
