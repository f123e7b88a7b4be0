-- ===== src/MacRegistry.antt =====
-- The numeric ids of MAC addresses (server/core/mac_id_registry.py).
pub mod Registry
pub mod Ids
mod Tests
