-- ===== src/Arena.antt =====
-- arena.rs: the arena that shared memory is handed out from. Offsets stand for pointers, and the
-- bytes behind the header, with the nodes of the free lists among them, are the field `memory`.
-- The compare-exchange loops are taken once: a call that no other thread disturbs needs no retry.
pub mod Defs
pub mod Bump
pub mod Blocks
pub mod FreeList
pub mod Reuse
pub mod Overlap
mod Tests
