-- ===== src/Lib.antt =====
-- MCSOS, an educational x86_64 kernel.
--
-- The parts and the files that model them. Prelude and Word are shared: native numbers, lists with
-- native indices, and unsigned words of 64 bits with their wrap-around written out; Word/Mask and
-- Word/Bytes turn masks into arithmetic.
--
-- * Pmm, the physical memory manager (src/pmm.c, include/pmm.h). `PmmState` is struct pmm_state with
--   the bitmap as a list of bytes, bit set for a frame in use. Pmm/Bitmap has the bit routines and the
--   search, Pmm/Frames the marking of frames and of ranges, Pmm/Api the public functions. A function
--   named pmm_… takes `none` for a null state; the one without the prefix is the code behind that check.
--   Loops over frames run on the number of frames that is left, so they need no fuel.
-- * Sched, the cooperative scheduler (kernel/sched/mcsos_thread.c, include/mcsos_thread.h,
--   kernel/arch/x86_64/context_switch.S). Threads live in a store by their addresses and 0 is null, so
--   aliasing is what it is in C. Sched/Ops has the start and the queue, Sched/Switch the switch, yield,
--   tick, block and wake, Sched/Check the counting and the validation, Sched/Prepare the first stack of a
--   thread. The loops of Sched/Check follow links and take fuel; `none` is fuel that ran out. The loop
--   of the validation stops itself after the count that the scheduler keeps, so two more than that is
--   enough; the counting loop has no such stop. The text "boot", the trampoline and the address where a
--   switched thread goes on are parameters, being addresses that the linker chooses.
-- * Syscall, the system call layer (kernel/syscall/syscall.c, include/mcsos/syscall.h). The installed
--   callbacks are parameters that act on a world `W`. Syscall.antt has the state, the handlers and the
--   dispatch. A call of a null function pointer is `none`.
-- * Vmm, the page tables (src/vmm.c, include/vmm.h): memory is a function from addresses to 64-bit words,
--   so tables may alias; the frame allocator and the translation of physical addresses, which the caller
--   of vmm_space_init supplies, are parameters of `Space`. The three levels that the code writes out are
--   one recursion on the list of indices. That translated tables do not overlap, that the tables form a
--   tree, and that the allocator gives frames that were free, are hypotheses (Vmm/Tree, Vmm/Grow).
--   Vmm/Entry reads the bits of an entry, Vmm/Added adds one table, and Vmm/Map, Vmm/Down and
--   Vmm/Mapped map a page.
-- * Heap, the kernel heap (kernel/mm/kmem.c, include/mcsos/kmem.h). Headers live in a store by their
--   addresses, and the other bytes in a second one; no code reads a header as bytes. The functions that
--   follow links take fuel, and `none` is fuel that ran out: one more than the number of blocks is enough,
--   or two more after an allocation. Heap/Spec has the abstract heap, the list of the sizes of the blocks
--   with whether each is free. The proofs ask for 96 bytes between the end of the heap and the end of the
--   address space, and freeing for at most 2 ^ 20 blocks, the number at which kmem_validate gives up.
-- * Idt, the descriptor table (kernel/arch/x86_64/idt.c): the table by vectors, and the two loops and the
--   last gate of x86_64_idt_init. The addresses of the stubs are parameters.
-- * Timer, the interval timer (kernel/arch/x86_64/pit.c): the outputs to its ports and its ticks.
-- * Bus, the ports (kernel/arch/x86_64/include/io.h): the list of the accesses so far. The devices are a
--   parameter, what each read answers, which may depend on all accesses before it.
-- * Console, the output: the serial port (kernel/core/serial.c), the log (kernel/core/log.c) and the report
--   of a panic (kernel/core/panic.c). The wait for the port runs on the polls that are left, so it needs no
--   fuel. Console/Sent, Console/Hex and Console/Dec show what arrives on the line, Console/Polls how long
--   the output may wait.
-- * Pic, the interrupt controllers (kernel/arch/x86_64/pic.c), and in Pic/Chip what their datasheet says
--   of the initialisation and the masks, which is a hypothesis on the devices.
-- * Trap, the dispatch of traps (kernel/core/trap.c): it returns or halts as a value of `Outcome`.
-- * Kmain, the entry of the kernel (kernel/core/kmain.c), which sets the parts above up in its order:
--   Kmain/Heap follows the start of the heap, Kmain/Boot the whole entry. A panic and an interrupt are
--   values of `BootEnd`, and `none` is fuel of the heap that ran out. The addresses that the linker
--   chooses are the record `Image`, the processor's flags a parameter.
-- * Memory, the memory routines (kernel/lib/memory.c): memory is a function from addresses to bytes and
--   an object does not run past the end of the address space.
--
-- The files below a part prove its properties, and the file Tests of each part runs it on a small machine.
-- The entry of the kernel starts the heap, the table, the controllers, the timer and the system calls,
-- whose callbacks reach the timer and the serial port. The kernel does not start the frame manager, the
-- page tables and the scheduler yet; its tests under tests/ do.
--
-- An interrupt that arrives after `sti` ends the model of the entry with the state that it meets; it is let
-- in at three points, before the self test, the heap and the system calls.
--
-- Not modelled: the stubs of isr.S and syscall_entry.S, which save registers; what the processor does with
-- an interrupt that the entry meets; single instructions such as lidt, cli, sti, hlt and the moves to CR3;
-- assertions on the sizes of types; limine.h, which is another project's; the tests.
pub mod Prelude
pub mod Word
pub mod Memory
pub mod Pmm
pub mod Sched
pub mod Syscall
pub mod Vmm
pub mod Idt
pub mod Timer
pub mod Heap
pub mod Bus
pub mod Console
pub mod Pic
pub mod Trap
pub mod Kmain
