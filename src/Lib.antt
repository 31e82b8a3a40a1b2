-- ===== src/Lib.antt =====
-- oshub: the kernel of lab8, the last of the labs, whose earlier stages it repeats.
--
-- The parts and how they interact. Links models lab8/libs/list.h, the doubly linked lists that most
-- parts of the kernel keep their objects in; SkewHeap models lab8/libs/skew_heap.h. Pmm models the
-- first-fit page manager lab8/kern/mm/default_pmm.c, which keeps the free blocks in such a list.
-- Sched models lab8/kern/schedule: the core in sched.c, which calls a scheduling class through
-- `struct sched_class` (the record `Class`), the timers there (Sched/Timers), and the two classes,
-- default_sched.c (Sched/RoundRobin) and default_sched_stride.c (Sched/Stride, on Links and
-- SkewHeap). Bitmap models lab8/kern/fs/sfs/bitmap.c, which keeps track of the free blocks of a
-- disk. Sfs models the simple file system of lab8/kern/fs/sfs on that bitmap: the blocks of the
-- disk (Sfs/Disk), the map from the blocks of a file to those of the disk (Sfs/Bmap), and reading
-- and writing (Sfs/Io). Files models the open files of a process, lab8/kern/fs/file.c, fs.c and
-- iobuf.c, and the counts of inodes of lab8/kern/fs/vfs (Files/State and Vfs); it reaches a file
-- system only through `struct inode_ops`, the record `Ops`. Vmm models the memory areas of a
-- process, lab8/kern/mm/vmm.c (Vmm/Areas), and the kernel's access to its memory (Vmm/Access). Sync
-- models the wait queues, semaphores and monitors of lab8/kern/sync (Sync/Wait, Sem and Monitor)
-- over the scheduler. Paging models the page tables of lab8/kern/mm/pmm.c over that page manager
-- (Paging, and Paging/Ranges for ranges of addresses). Process models lab8/kern/process/proc.c: the
-- list, the hash table, the numbers and the tree of the processes (Process), and fork, exit, wait
-- and kill (Process/Calls and Fork). Memory models the copying, filling and counting functions of
-- lab8/libs/string.c, and Memory/Compare its comparing, searching and joining ones. Prelude holds
-- what they share: tests, lists, and the results of kernel functions.
--
-- How state and operations correspond. Pages, page tables, processes, timers, list nodes and heap
-- nodes are named by numbers, as pointers name them in the code; memory is a function from these
-- numbers for each field, and a function that writes returns the new state. The list node of page p
-- is p, and 0 is the head `free_list`, so that pages are numbered from 1; the same holds of
-- `run_list` and `timer_list`. An operation keeps its name without the prefix of its file
-- (`default_free_pages` is Pmm.free_pages, `RR_enqueue` is Sched.RoundRobin.enqueue). `Run` is what
-- a kernel function does: it returns, or an `assert` stops the machine; `Eff` is the same for
-- functions on a state that may return an error code. The variables of a function in its later
-- parts are a record (Sfs/Io), and a transfer between a file and memory works on one buffer. A file
-- is named by its slot in the table, an inode by a number. Interrupts are off in the functions of
-- sched.c, and each is one step; `down` is a step before it calls `schedule` and a step after. So
-- are the page manager's, which pmm.c calls with interrupts off.
--
-- Integers. `unsigned int` and `uint32_t` wrap at `2 ^ 32` where the code adds to them; a
-- subtraction is written as it stands where a test before it keeps it at or above 0. Strides are
-- 32-bit words throughout, and their comparison is that of a signed 32-bit difference. `runs` and
-- the counts of inodes and files are unbounded; the inodes have a limit in `inode_check`. A
-- descriptor is a 32-bit word, so that negative ones are large, and a position a 64-bit one. A word
-- of a bitmap is its 32 bits. The offset of a block on the disk wraps at `2 ^ 32`, as in sfs_io.c.
--
-- Fuel. The walks over the free list take the number of free pages as fuel, which no list of
-- non-empty blocks exceeds; `skew_heap_merge` takes a bound on the nodes of both heaps, for which
-- the stride class passes the number of processes; the timer loops take a bound as an argument.
-- Each theorem about such a function either holds of the fuel that the code's model passes, or
-- names the bound that is enough.
--
-- `find_vma` and `insert_vma_struct` take the number of areas, `user_mem_check` and `copy_string`
-- the number of addresses, of which every round passes at least one. The walks through processes
-- take a bound on their number, and `get_pid` one for its restarts as well. Loops over the slots of
-- the table, the blocks of a transfer and the bytes of a block recurse on their number.
--
-- Abstract views. A list stands for the sequence of its nodes (Links/Chain and Ring), a heap for a
-- binary tree (SkewHeap/Tree and Shape), the page manager for an ordered sequence of free blocks
-- (Pmm/Blocks and Walk), the round-robin queue for a sequence of processes (Sched/Ready), the
-- stride queue for a heap ordered by the distance of the strides from a base on the circle of
-- 32-bit words (Sched/Window, Pool and Fair), the timers for a sequence of timers with the ticks
-- until each expires (Sched/Due and Leave), the list, hash table and tree of proc.c for sequences
-- of processes (Process/Numbers, Table and Children). A file of the simple file system stands for
-- its bytes (Sfs/Mapped), and a table of open files for the number of its slots that have each
-- inode open (Files/Counts and Kept), and the areas of a process for the function from addresses to
-- the area that each lies in (Vmm/Lookup). A semaphore stands for its value and the sequence of
-- those who wait (Sync/Handover).
--
-- Not modelled: the calls of semaphores from lab8/kern/fs, so that the functions on files run
-- without others in between; the rest of lab8/kern/fs, whose searches for paths are fields of
-- `Ops`; execve, the context switch and the start in lab8/kern/process, in lab8/kern/mm the
-- allocator kmalloc.c, which comes from Linux, the copy of an address space and the set-up at boot,
-- lab8/kern/syscall and lab8/kern/trap, the output and random functions of libs, and the best-fit
-- and buddy managers of lab2, which this library leaves aside; the drivers and the start-up code,
-- which are device access and assembly; the self-checks, the debugger and the user programs, which
-- carry no state of the kernel.
pub mod Bitmap
pub mod Files
pub mod Links
pub mod Memory
pub mod Paging
pub mod Pmm
pub mod Prelude
pub mod Process
pub mod Sched
pub mod Sfs
pub mod SkewHeap
pub mod Sync
pub mod Vmm
