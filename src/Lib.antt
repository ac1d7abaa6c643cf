-- ===== src/Lib.antt =====
-- pellOs, a small operating system kernel for the Raspberry Pi 4 (64-bit ARM).
--
-- The kernel's parts and how they interact. The timer interrupt calls `scheduler_tick`
-- (src/scheduler/scheduler.c), which counts a tick for the software timers
-- (src/lib/software_timer.c), ends the current task's slice and picks the next task. A task is made
-- by `kernel_fork`, which takes its page from the allocator (src/mm/mm.c) and copies a user task's
-- address space by the page tables (src/mm/paging.c). Each task has a table of file descriptors
-- (src/fs/fd.c), which the calls above it (src/fs/open.c, src/fs/read.c) fill with files of the ram
-- disk (src/fs/rdfs/rdfs.c). The kernel's own blocks come from `kmalloc` (src/lib/kmalloc.c). The
-- shell (src/utils/shell.c) writes on the screen (src/peripherals/framebuffer.c), which the graphics
-- processor grants through the mailbox (src/peripherals/mailbox.c). A program is loaded into a user
-- page by `elf_load` (src/lib/elf/elf.c).
--
-- Files:
--   Base: the library names, lists, words and integers that the other files share; Memory has bytes
--     and 64-bit words at addresses, Masks what `&` and `|` do with the fields of a word, and
--     Digits with its binary digits.
--   Mm/Pages: src/mm/mm.c, in its two variants; Scan, Alloc, Free, Zero, Count and ByteMap
--     prove its laws.
--   Mm/Paging: src/mm/paging.c, every function of it. Walk says how the processor walks the tables,
--     and Tree what tables in memory are; NewTable, Leaf, Grow, Level, Directory, Map, Fresh, Filled,
--     Fault, CopyWords, CopyRound, Copy and Full prove the laws.
--   Fs/Fd: src/fs/fd.c; `destroy_fd_table` is in its child Destroy. Search, Create, Delete and Init
--     prove its laws.
--   Fs/Rdfs: src/fs/rdfs/rdfs.c; Strings, Walk and Read prove its laws.
--   Fs/Vfs: src/fs/open.c, src/fs/read.c and their calls in src/syscalls.c; Calls proves their laws.
--   Kernel: include/scheduler/task.h and the static variables of the scheduler and the timers.
--   SoftwareTimer: src/lib/software_timer.c; `register_one_hit` is in its child Register. Check,
--     Wake and Sleep prove its laws.
--   Scheduler: src/scheduler/scheduler.c; Fork has `kernel_fork` and `exit_task`. Select, Recharge,
--     Pick, Schedule, Kept, Tick, Pid and, in Fork, Enter, Laws, Parent, User and
--     Exit prove its laws.
--   KernelHeap: include/lib/kmalloc.h and `kmalloc_init` and `kmalloc` of src/lib/kmalloc.c; `kfree`
--     is in its child Free. FreeList, Links, FirstFit and Alloc say what a list of free blocks in
--     memory is and what taking a block does to it; Malloc, Merge and Init prove the laws.
--   Elf: src/lib/elf/elf.c and `move_to_userspace` of src/scheduler/task.c; Load proves their laws. Its
--     file is read by bytes from the words of memory (Base/WordBytes).
--   Mailbox: src/peripherals/mailbox.c, with the graphics processor as a parameter; Reply proves its
--     laws.
--   SystemTimer: src/peripherals/system_timer.c; Wait proves its laws.
--   Uart: src/peripherals/uart.c; Sent proves its laws.
--   Boot: the kernel heap's pages in `main` of src/kernel.c; Heap proves their laws.
--   Shell: src/utils/shell.c; Screen proves its laws.
--   Framebuffer: src/peripherals/framebuffer.c, with the font of
--     include/peripherals/framebuffer_char.h in its child Font; Glyph proves its laws, and Screen has
--     `framebuffer_init` with its law.
--   Gpio: include/peripherals/gpio.h; Laws proves its laws.
--   Gic: src/irq.c, for the interrupt controller that the configuration selects; Laws proves its laws.
--   Syscalls: the calls of src/syscalls.c that change tasks.
-- A Tests file holds the examples of each part.
--
-- State and operations. Functions keep the source's names, and take and return the state that the
-- source keeps in static variables; `_schedule` is `reschedule`, and the ram disk's functions but
-- `rdfs_init` lack the prefix `rdfs_`. Memory is a function from physical addresses to 64-bit words, for
-- the ram disk and the kernel heap one from addresses to bytes, for devices one from addresses to what
-- is read there, and the tasks are a function from addresses to `Task`. Results of `Option` are `none`
-- for an access outside an array, or for fuel that ran out. Machine integers are natural numbers, or
-- integers where the source's type is signed, with their wrap-around written out where the code can
-- reach it.
--
-- Bounds and fuel. The endless loop of `_schedule` takes fuel, one for each round. The first round
-- recharges the counters, so that two are enough if some task can run. The resolution of a path
-- has the path's length as its fuel, and each round uses up a character. The loops of `kmalloc` and
-- `kfree` have one for each free block that they visit; a call that follows a pointer to no memory
-- ends in `fault`. A wait for a device takes fuel for its polls, which is enough when the device is
-- ready within as many polls; the loop of `mailbox_call` has one for each reply.
--
-- Not modelled: the registers and assembly code of the processor switch, the interrupt mask, the
-- generic timer, the start-up in src/kernel.c but for the heap, and the formatted output (a copy of
-- tinyprintf). How the processor translates a
-- user address is a parameter `translate`. What the calls of `kmalloc` return to the ram
-- disk's functions is a parameter `heap`, by the number of the call. In the exit of a task the kernel
-- heap has its own memory, apart from the words of the pages, and the pointers of the task's table are
-- arguments.
pub mod Base
pub mod Mm
pub mod Fs
pub mod Kernel
pub mod SoftwareTimer
pub mod Scheduler
pub mod Elf
pub mod Boot
pub mod Uart
pub mod SystemTimer
pub mod Mailbox
pub mod Shell
pub mod KernelHeap
pub mod Framebuffer
pub mod Gpio
pub mod Gic
pub mod Syscalls
