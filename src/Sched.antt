-- ===== src/Sched.antt =====
-- The cooperative scheduler, kernel/sched/mcsos_thread.c and include/mcsos_thread.h.
pub mod Types
pub mod Ops
pub mod Switch
pub mod Check
pub mod Prepare
pub mod Chain
pub mod Invariant
pub mod Reach
pub mod Turn
pub mod Tests
