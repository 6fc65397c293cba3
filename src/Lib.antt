-- ===== src/Lib.antt =====
-- Verification of toutOS, a small operating system for 64-bit ARM machines. The development is about
-- the C code of the kernel; paths are those of the repository.
--
-- The parts and their files:
-- - Base: the names and lemmas that the others share: Boolean tests and lists over the native numbers,
--   the C int as an integer, arithmetic that wraps.
-- - CircularBuffer (lib/circular_buffer.c): the byte ring of the kernel log. `CircularBuffer` is struct
--   circular_buffer with pointers as offsets, `ConcurrentCbuf` struct concurrent_cbuf. The functions
--   have their names; `write_body` and `read_body` are what follows the checks of the arguments.
--   CircularBuffer/Interleave has the reader and the writer as two threads of steps, since they take
--   two locks.
-- - MemPool (mm/mm.c): the allocator that the kernel and the user library share. The memory is a map
--   from addresses to words, in which the blocks have a header and a tail; `MemPool` is struct
--   mem_pool with the state of `sbrk_func`. MemPool/Blocks says when a memory holds a sequence of
--   blocks, MemPool/Pool what `sbrk_func` is relied on for.
-- - Kmalloc (mm/memory.c): the allocator over a fixed range of addresses, an instance of MemPool.
-- - Pages (mm/memory.c): the page allocator, with pages_usage as a map.
-- - Sched (kernel/sched.c): the task table, the choice of the next task, slots and pids, and the making of
--   a thread of the kernel (Sched/Thread).
-- - Timer (kernel/timer.c): the list of timers in a store by address.
-- - Mutex (kernel/mutex.c): the mutex and its bitmap of waiting tasks. Mutex/Exclusion has the tasks that
--   use it, a section under the spin lock being one step; Mutex/Fair relates the bitmap to the tasks,
--   Mutex/Progress is about the wake-ups.
-- - Softirq (kernel/softirq.c): the pending soft interrupts and the nesting count of each core.
-- - Areas (kernel/sched.c): the areas of a process, and the pages that its end gives back to Pages.
-- - Exit (kernel/sched.c): exit_mm, the end of the memory of a process, over Areas and Pages. Exit/Held says
--   when a list of blocks is held over a usage of the pages, Exit/Runs what a new block does to it.
-- - Fork (kernel/isr.c): sys_fork, with the slot, the areas and the pages of the child and its clean-up by
--   Exit. Fork/Copy, Areas and Children follow the loops from the inside out, Fork/Tables is about the
--   pages of the page tables, Fork/Result is the whole.
-- - Sleep (kernel/sched.c, kernel/isr.c): schedule_timeout, msleep and sys_nanosleep over Timer; what the
--   other tasks do until the task runs again is an argument.
-- - Interrupts (kernel/isr.c): the dispatch of interrupts and the times of a task.
-- - Clock (kernel/misc.c, kernel/hw_timer.c, include/stddef.h): timestamps, delays, the tick, orders.
-- - UserHeap (usr/unistd.c, usr/stdlib.c): the heap of a user program, an instance of MemPool.
-- - LineDiscipline (kernel/uart.c): the line buffer behind the keys, and the magic keys.
-- - Print (include/print.h): the printing of numbers and the format machine of the PRINT macro; the
--   characters are a list. Print/Digits, Print/Count and Print/Format are about its parts.
-- - Printk (kernel/printk.c): printk, from Print through the buffer of a core to the kernel log.
-- - Uart (kernel/uart.c): the sending of the kernel log, and the interrupts of the serial line.
-- - WaitQueue (kernel/wait.c, include/wait.h): the wait queues over a list that is a parameter.
--   WaitQueue/Reader is read_stdin of kernel/isr.c as steps beside the keys.
-- - PageTable (mm/page_table.c, pg_calloc of mm/mmu.c): the walk and the change of the tables in one
--   memory by address. PageTable/Tree says when the tables are a tree, and what an allocator of tables
--   is relied on for; PageTable/Draws counts the calls of that allocator; PageTable/Setup, Map and Range are
--   about adding mappings, PageTable/Unmap about taking one away.
-- - UserPages (kernel/sched.c, get_zeroed_pages of mm/memory.c): the mappings of a process, PageTable with
--   Pages behind it. UserPages/Supply fills the interface of the page tables with the page allocator.
-- - SystemCalls (kernel/isr.c): the entry to the system calls, the faults of a process, sys_brk over
--   Areas and UserPages, and the reading of a line over LineDiscipline.
-- - Strings (include/string.h): a string is the list of its bytes before the NUL.
--
-- The kernel log is a ConcurrentCbuf, which Printk writes and Uart reads; Kmalloc fills the interface
-- `SbrkLaws` of MemPool with kernel_mock_sbrk; the page pool of Pages starts where the range of
-- Kmalloc ends. PageTable relies on an allocator by `CallocLaws`, which pg_calloc fills while the
-- machine starts and Pages for a process. A fault of a process goes from SystemCalls through Areas and
-- Pages to PageTable; a key from LineDiscipline to a read in SystemCalls, whose reader waits in
-- WaitQueue. Fork goes from Sched through Pages and Areas to UserPages, and back through Exit when an
-- allocation for its areas fails; an assertion about the page tables stops the kernel, which is the end of
-- the model there.
--
-- Bounds and fuel: size_t, u64 and unsigned long wrap at 2 ^ 64. Loops over a list in memory take
-- fuel, and `none` is a loop that has not ended with it. In MemPool the blocks of a pool are at most
-- as many as its bytes, so that this fuel is enough; the recursion through `sbrk_func` takes a budget
-- that each enlargement makes smaller. A walk over timers takes one more than the length of the list,
-- the soft interrupt at most the square of that, and a sleep two more than the timers of others. The
-- loops over arrays have their bounds as fuel. The orders of Pages are below 31, as 1 << order is an
-- int. The int counter of the loop of init_free_blk is a number without a bound, which the sizes of the pools of the
-- program do not reach. The three layers of the tables are a list, so that the walk needs no fuel; the digits of a
-- number take the length of the buffer, which a base of at least 2 fits.
--
-- Not modelled: assembler, registers and devices; the locks themselves, where a section under one lock
-- is one step, and so are the change of the line by a key and the wake_up behind its unlock; a change of the tick
-- between two readings of it at one end of schedule_timeout; the devices behind print_char; include/list.h, which is a copy; the start and the test
-- programs of kernel/main.c and usr/user_init.c; and, so far, the set-up of the two directories at the
-- start. Of a page of a process only its address is modelled, not what it holds.
pub mod Base
pub mod CircularBuffer
pub mod MemPool
pub mod Kmalloc
pub mod Pages
pub mod Sched
pub mod Timer
pub mod Strings
pub mod Mutex
pub mod LineDiscipline
pub mod Softirq
pub mod Areas
pub mod Clock
pub mod UserHeap
pub mod Interrupts
pub mod Print
pub mod PageTable
pub mod UserPages
pub mod SystemCalls
pub mod Exit
pub mod Fork
pub mod Printk
pub mod Uart
pub mod Sleep
pub mod WaitQueue
