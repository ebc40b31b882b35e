-- ===== src/Ring.antt =====
-- The ring buffers, ring/mod.rs, ring/spsc.rs and ring/mpmc.rs.
pub mod Slot
pub mod Queue
pub mod Window
pub mod Spsc
pub mod Mpmc
mod Tests
