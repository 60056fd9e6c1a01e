-- ===== src/Lib.antt =====
-- Verification library of the sysres-os kernel, a micro-kernel for the Raspberry Pi 3 in C.
--
-- The kernel keeps a table of 32 processes and, for each of 16 priorities, a circular list of the
-- runnable ones. System calls fork and end processes and pass messages through a buffer in each
-- descriptor; after each one the scheduler draws a priority and runs the head of its list.
--
--   Base       Boolean tests, lists, 32-bit and 64-bit words, counting; names of the standard library.
--   Ring       Doubly linked circular lists, as next and previous maps with a head; Ring.Closed says of
--              any number of rings, without heads, that their links stay among their members.
--   Bytes      src/libk/string.c over a memory of bytes: memmove, memcpy, memset, memcmp, strlen, strcmp.
--   Alloc      src/memory/alloc.c: ksbrk, the list of blocks, kmalloc and kfree. A header is a record at
--              its address; Alloc.Blocks reads the list as cells that lie side by side, and Alloc.Power
--              is about next_power_of_2.
--   Random     random and random_law of src/interrupt/timer.c.
--   Proc       The process manager, src/proc/proc.c with src/proc/proc.h and src/proc/proc_mmu.c:
--     State      the records of proc.h and errno.h, the globals of alloc.c that a switch saves;
--     Run        commands on the state, with the ways not to return: `fault` (a NULL or an index out of
--                range), `panic` (assert, abort), `halted` (halt) and `stuck` (a loop out of fuel);
--     Queue      change_state, as leave_queue, enter_queue and set_state;
--     Channel    syscall_send, syscall_receive, syscall_acknowledge and the two functions they call;
--     Schedule   schedule, run_priority and the checks of print_prio_lists;
--     Descriptor, Family, Search, Context, Lifecycle, Dispatch
--                the descriptors, the child lists, the search loops, the context switch, fork, wait and
--                exit, and the handler of system calls. Family.Kin says how the children hang together:
--                `kin p` lists the ring that `child` of the live process p heads, and what an ended
--                parent leaves is a ring without a head. Lifecycle.Fork, .Wait and .Exit have the
--                outcome of each call as a function on the table of descriptors;
--     Sound, Steady
--                the invariants of the table: the run queues and the descriptors, and with them the
--                families. Steady.Trap follows a process from its start in user mode to its next call;
--     Dispatch.Cycle
--                the states that a running process reaches by system calls, as an indexed data type:
--                each step is a stay in user mode, with anything in registers and memory, and one call
--                of the handler with a request in order. Of the memory manager the process manager uses
--                what `c_init_mmu` does for a new process (`Setup`, which `setup_by` of Proc.Context
--                takes from Mmu.Fork), and whether the kernel's copies to and from the memory of a
--                process return. Where one does not, the command does not return either.
--   Step       Commands over any state: they return, panic (assert), fault (an index out of range) or are
--              stuck (a loop out of fuel). Mmu and Files use them.
--   Mmu        src/memory/mmu.c and mmu.h:
--     State, Entry
--                the static variables, page and table entries as 64-bit words;
--     Walk, Bind
--                the walk through the two levels of tables, bind_address and get_new_page. Walk.Layout
--                says how the tables lie, and reads them as a map from virtual to physical pages;
--     Pages, Free
--                the counters of bindings, the stack of free pages, free_virtual_page, process_exit;
--     Tables, Fork, Fault, Sync
--                the kernel's tables, the pages that a child shares, the fault handlers, and their
--                dispatch in src/interrupt/interrupt.c.
--   Files      src/libk/filesystem.c: Words (big-endian words), Blocks (blocks, inodes, the list of free
--              blocks), Descriptors, Content (read and write), Paths and Start.
--   Console    src/libk/uart.c: the printing of numbers, the formats of printf and the reading of a line.
--
-- A process pointer is an index into the table, and NULL is `none`. An int is the number that its bits
-- spell, below 2 ^ 32, and a comparison of ints reads the top bit as the sign. The fields of a
-- descriptor are those of proc.h.
-- A loop over a child list or a queue has fuel for the 32 slots of the table, which no list of
-- distinct slots exceeds; a loop over the table has a round for each slot; the loops over strings and
-- blocks take their fuel as an argument, and the theorems say how much is enough. A recursive call of
-- bind_address happens once at most, so its callers give it fuel 2. What the code prints is left out
-- but in Console, and so are the system registers, which are arguments where a result depends on them.
--
-- The translation tables, the counters of bindings and all other memory do not overlap; caches and the
-- translation buffer are left out. The copies of blocks that filesystem.c allocates are values, and so
-- lie outside of the memory that holds the disk, the caller's buffers and the area of a directory entry.
--
-- Not modelled: the programs in user space and their managers, the countdown of the timer, and of the
-- modelled files init_proc, exec_proc, the handler of timer interrupts, init_alloc, krealloc, kcalloc,
-- strcat, filename_join, init_cache, one_step_mapping and what only prints. Assembly and device registers are out of reach.
pub mod Alloc
pub mod Base
pub mod Bytes
pub mod Console
pub mod Files
pub mod Mmu
pub mod Proc
pub mod Random
pub mod Ring
pub mod Step
