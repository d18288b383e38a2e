-- ===== src/Lib.antt =====
-- A verification library for the CS 1651 projects: demand paging (VMproject), user-level threads
-- (Threads) and synchronisation (SyncProject). The three do not call each other.
--
-- VMproject. A process maps ranges of addresses with ioctls; VMproject/on_demand.c keeps them in a
-- list of regions, and on a page fault enters a page into the page tables of the processor.
--   Vm/MemMap is the list of regions (petmem_init_process, petmem_alloc_vspace, the list part of
--   petmem_free_vspace, petmem_find_address). A `struct mem_map` is a record
--   with its address, and the list is a list of these; addresses are numbers below 2 ^ 64, and each
--   addition or subtraction of the code wraps as it does there. kmalloc is the address that it
--   returns, an argument. Vm/PageTable is the walk of the four levels and the page fault handler
--   (handle_pagefault, walk_page_table and the entries of VMproject/pgtables.h), over a store of
--   entries with an owner for each page; the page allocator of the kernel is a list of free pages.
--   Vm/Format is the rest of VMproject/pgtables.h: the structures of every paging mode as lists of bit
--   fields of a word, and the macros that take addresses apart; it shows that the entries of
--   Vm/PageTable are what those words say.
--   Vm/Release is the second half of petmem_free_vspace, which frees the pages of a block and then
--   the tables above them; a NULL pointer that it follows stops the kernel. Vm/Deinit is
--   petmem_deinit_process, which calls both halves for each allocated block.
--   Vm/Ioctl is the ioctl LAZY_ALLOC of VMproject/main.c on top of Vm/MemMap. Vm/Pool is the page pool
--   of VMproject/main.c (ADD_MEMORY, petmem_alloc_pages, petmem_free_pages), a list of pools; the
--   buddy allocator, fls, get_order and the translation of addresses are parameters.
--   Vm/Device is petmem_open and petmem_ioctl of VMproject/main.c for one open file: a record of the
--   list of regions, the page tables and the pools, and a case for each ioctl on top of the parts
--   above. Vm/Harness is the user library VMproject/user/harness.c, whose functions make these calls.
--   Vm/FileIo is VMproject/file_io.c, by which the module makes directories and reads and writes
--   files; the functions of the kernel are a parameter, and a path is a list of bytes.
--   Vm/Module is petmem_init and petmem_exit of VMproject/main.c, which register the device; the
--   registries of the kernel and its functions on them are parameters.
--   Tool is the memory tool VMproject/user/petmem.c, which takes memory blocks off line and hands
--   them to ADD_MEMORY; what the files of /sys answer is a parameter.
--
-- Threads. Threads/pet_thread.c runs threads on stacks of its own, one at a time. Threads/Sched
--   is its scheduler: the globals are the record Sched, the ready and blocked lists are lists of
--   ids, and a thread's struct is found by its id. A call is a function that returns the next
--   state, or which of an assertion and a bad pointer stops the program. The code reads the struct of
--   the last stopped thread after it was freed; what a freed struct holds is in two fields of the
--   record, and the invariant takes it to be the id and the state of the thread. In it the switch of stacks
--   is a change of the thread that makes the next call. Threads/Stack is the switch itself
--   (Threads/pet_thread_hw.S) and the stack of a new thread, over registers and words of memory;
--   what pet_thread_cleanup does to them is a parameter, and __abort_to_stack, which nothing calls, is
--   left out. The copy of the kernel's list
--   (Threads/pet_list.h) is not modelled but for what list_del needs.
--
-- SyncProject. Sync models SyncProject/locking.c, where threads share memory: Sync/Atomic is its
--   atomic instructions, Sync/Spinlock the spin lock, Sync/Barrier the barrier, Sync/RwLock the
--   reader-writer lock and Sync/LfQueue the lock-free queue, with a step for each access of a
--   shared word and a list of threads as the order in which they move; the addresses that malloc
--   returns are part of that list. The `int`s are words of 32 bits; where a counter could wrap, a
--   theorem bounds the length of that list. Sync/Driver is three of the exercises of
--   SyncProject/driver.c, whose threads use the atomic instructions, the barrier and the spin lock
--   in loops of their own; a system of these threads holds the system of the barrier or the lock.
--
-- Most loops are recursions on the lists and the levels that they go over, and a spinning loop is one
-- step a turn. Five run on fuel. The loop of the memory tool clears a block or ends in each turn, so
-- it has one turn more than there are marked blocks. The loop of ADD_MEMORY lowers the highest bit of
-- a word of 32 bits, and has 34 turns. The loop of petmem_free_vspace is given its turns as an
-- argument, since its indices can leave their tables; a theorem gives a number that is enough for a
-- block in one table, and petmem_deinit_process, whose own loop has a turn for each node, hands that
-- number to each of its releases. The
-- loop of mkdir_recursive has a turn for each byte of the copy of the path, and ends or passes a byte
-- in each.
-- Not modelled: the buddy allocator that VMproject/main.c calls (VMproject/buddy.c, a copy of another
-- project's), swap, whose code is empty, the hash table of Threads, which is another project's, and
-- the other test programs.
pub mod Prelude
pub mod Vm
pub mod Threads
pub mod Sync
pub mod Tool
