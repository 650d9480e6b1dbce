-- ===== src/Heap.antt =====
-- The kernel heap, kernel/mm/kmem.c and include/mcsos/kmem.h.
pub mod Types
pub mod Ops
pub mod Check
pub mod Spec
pub mod Chain
pub mod Align
pub mod Split
pub mod Alloc
pub mod Absorb
pub mod Release
pub mod Validate
pub mod Invariant
pub mod Packed
pub mod Taken
pub mod Freed
pub mod Refused
pub mod Init
pub mod Trip
pub mod Calloc
pub mod Stats
pub mod Reach
pub mod Tests
