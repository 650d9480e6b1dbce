-- ===== src/Pmm.antt =====
-- The physical memory manager, src/pmm.c and include/pmm.h.
pub mod Bitmap
pub mod Frames
pub mod Api
