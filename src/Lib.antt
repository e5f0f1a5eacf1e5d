-- ===== src/Lib.antt =====
-- A model of the kernel in kernel/: the memory of a process, its semaphores, pipes and open
-- files, and the system calls over them. A definition is the translation of a function of the
-- source, with its name where the language allows it; state is passed and returned; a call that
-- may fail an assertion or panic, or that would use a null pointer or a deleted object, returns
-- an option, and none stands for that. Numbers are natural numbers, with the wrap-around of
-- uint32_t written out (Prelude/Words).
--
-- Parts and files. Prelude holds the shared names, and Prelude/Lists, Prelude/Bits and
-- Prelude/Words the lemmas on lists, bit operations and words. Machine is memory by words. Vme is
-- VMEQueue of kernel/queue.h, the regions of a process, as the list of its nodes. PhysMem is the
-- frame allocator of kernel/physmem.cc, with its free list in memory. Vmm is what vmm_pageFault
-- of kernel/vmm.cc does to back an address with a frame, over PhysMem. Semaphore is
-- kernel/semaphore.h and kernel/semaphore.cc; Buffer is the bounded buffer of kernel/bb.h over
-- two semaphores and the ready queue of kernel/events.cc, as a step relation: calls of put and
-- get, starts of ready events, and the steps of their closures on several cores, in any order.
-- Shared is the reference-counted pointer of kernel/shared.h over a store of counted objects.
-- Handles is the arrays of such pointers in a PCB of kernel/pcb.h and the loops of kernel/sys.cc
-- over them; Handles/Local is the local copy of a pointer that a system call makes. Sems is sem,
-- up, down and sem_close of kernel/sys.cc, over Handles and Semaphore. BlockIo is
-- kernel/block_io.h and kernel/block_io.cc, reading bytes from what is read in blocks. Files is
-- open, close, len, read, write, dup and pipe of kernel/sys.cc, over Handles, BlockIo and Buffer.
-- Mmap is simple_mmap of kernel/sys.cc, over Vme, Files and BlockIo. Timer is the timer queue of
-- kernel/events.cc, go of kernel/events.h, and the loop of event_loop that takes the due events
-- out. Children is the stack of children in a PCB of kernel/pcb.h. Lock is SpinLock and LockGuard
-- of kernel/atomic.h, as a step relation on the threads. Join is join of kernel/sys.cc, over
-- Children and Future. Queue is the linked queue Queue of kernel/queue.h, by the next pointers of
-- its nodes. FilePath is find_path_node and chdir of kernel/sys.cc, over the search of a
-- directory. Cache is MRUQueue of kernel/queue.h and the block cache of kernel/cache.cc, over
-- BlockIo. Elf is valid_load and load of kernel/elf.cc, over BlockIo and Vme. Ext2 is the
-- structures of kernel/ext2.h; Ext2/Volume is the mounting of a file system and the search of an
-- i-node, and Ext2/Nodes the blocks of a node and the entries of a directory, of kernel/ext2.h
-- and kernel/ext2.cc; a node is a device of BlockIo. Future is kernel/future.h without its
-- coroutines, over Semaphore. Signals is the state machine of one process under the timer
-- interrupt of kernel/pit.cc, the page faults of kernel/vmm.cc outside its regions, and kill,
-- simple_signal, sigreturn, exit and switch_processes of kernel/sys.cc, as a function of one
-- event to what the processor does next.
--
-- How they interact. simple_mmap adds a region to the queue, and a page fault in a region takes
-- frames from the allocator. A system call reads the array of the calling process, copies a
-- pointer, changes the object, and destroys the copy; a call that goes to event_loop does not
-- come back, and its copy stays, as a cell of its own in Handles. The event that a semaphore
-- holds or makes ready resumes a process, and is named by it.
--
-- Atomicity. Each call of a semaphore and each change of a count is one step, as the lock and the
-- atomic counter make it; the closures of put and get run in steps in Buffer, one for each call
-- of the queue or of a semaphore and one for work, and the steps of several cores come in any
-- order.
--
-- Bounds and fuel. read_all of BlockIo runs on one more round than the bytes asked for, and each
-- round but the last reads at least one byte; read_all_lem states that it returns. find_path_node
-- of FilePath runs on one more round than the bytes of the path, and each round but the last
-- takes a byte at least; find_path_node_lem states the result. entries of Ext2 runs on one more
-- round than the bytes of the directory; it ends for a directory of records, which are not empty,
-- by entries_lem. drain of Timer runs on one more round than the calls of timed, and ends by
-- timed_lem. All other loops are structural. The counts are 32 bits wide; their theorems have
-- fewer pointers than that as a hypothesis.
--
-- Not modelled: the processor (machine.S, the page directory register, the timer and the APIC),
-- the serial port and the disk driver, the boot code, the formatted output of kernel/snprintf.cc,
-- which is third-party, and the user programs of t0.dir, t1.dir and t2.dir. The kernel heap, fork
-- and execl, and the freeing of address spaces are not modelled either; read_block of the disk,
-- and the node that a path names or that a directory has under a name, are arguments where they
-- are used.
pub mod Prelude
pub mod Machine
pub mod Vme
pub mod PhysMem
pub mod Vmm
pub mod Semaphore
pub mod Buffer
pub mod Shared
pub mod BlockIo
pub mod Handles
pub mod Sems
pub mod Files
pub mod Mmap
pub mod Timer
pub mod Children
pub mod FilePath
pub mod Cache
pub mod Elf
pub mod Ext2
pub mod Future
pub mod Signals
pub mod Queue
pub mod Lock
pub mod Join
