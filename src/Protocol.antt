-- ===== src/Protocol.antt =====
-- The binary protocol of veddb-core/src/protocol.rs.
pub mod Codes
pub mod Header
mod Tests
