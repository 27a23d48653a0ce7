-- ===== src/Lib.antt =====
-- Verification of icariusOS, a small x86 kernel with its user land (sources under src/x86).
--
-- Parts and files. A path is from the repository's root.
--   Base: tests, lists with native indices, the cells of a circular buffer, bits of words.
--   Errno: src/x86/include/errno.h.
--   Fifo: src/x86/ds/fifo.c, the byte FIFO behind keyboard and mouse. `Fifo` is `fifo_t`.
--   Sched: the scheduler. Sched/Queue has the pointer queues that rr.c and wq.c both keep;
--   Sched/Tasks the state that they share and the functions of src/x86/process/task.c;
--   Sched/RoundRobin is src/x86/scheduler/rr.c; Sched/WaitQueue is wq.c with scheduler.c.
--   The timer interrupt calls `scheduler_schedule`, which calls `rr_yield`; the keyboard interrupt
--   calls `wq_wakeup`, which moves tasks from the wait queue to the ready queue.
--   Memory: Memory/Frames is src/x86/memory/pfa.c, the page frame bitmap; Memory/Paging is
--   src/x86/memory/page.c, directories of 4 MiB pages that take their frames from it; Memory/Chunks is
--   src/x86/memory/heap.c, the heap of the kernel, which takes pages from both.
--   Path: Path/Lexer is src/x86/fs/pathlexer.c, Path/Parser is src/x86/fs/pathparser.c. `vfs_fopen`
--   parses a path with them into the names that the file system walks.
--   Libc: src/x86/lib/string.c on byte memory. Libc/Blocks has the memory functions, Libc/Strings
--   those on texts that end in a NUL, Libc/Numbers the conversions of src/x86/lib/stdlib.c.
--   Stream: src/x86/fs/stream.c, a cursor over the bytes of the disk. Stream/Interface is the disk
--   driver as it is used, a record of two transfers, with the record of laws of a drive that answers;
--   Stream/Plain fills it.
--   Fat16: src/x86/driver/fat16/fat16.c over the streams. Fat16/Layout has the header of the volume and
--   where its areas begin, Fat16/Table the file allocation table, Fat16/Stamps and Fat16/Names the
--   packed times and the 8.3 names, Fat16/Entries directory entries and descriptors, Fat16/Files
--   `fat16_read` and `fat16_seek`, Fat16/Directories the searches of directories, Fat16/Writes
--   `fat16_write`, Fat16/Creation `fat16_create_file` and Fat16/Status `fat16_stat`. A chain of
--   clusters is the data type `Chain` over the entries of the table.
--   Devices: Devices/Keyboard is src/x86/driver/keyboard.c, Devices/Clock is cmos.c and rtc.c there.
--   User: the library of the programs, src/x86/user/libc. User/Heap is malloc/malloc.c, the blocks in
--   the order of their addresses and the list of the free ones; User/History is history.c, a ring of
--   lines; User/Readline is kbd.c and readline.c, which turn scan codes into a line and give it to the
--   history.
--   Vfs: src/x86/fs/vfs.c, the file descriptors, over the callbacks of a mounted file system (`Fs`)
--   and the parsed path. Vfs/Descriptors follows a descriptor, Vfs/Closes the slots of the table.
--
-- Conventions. A `uintN_t` is a natural number with its wrap-around written out. A pointer into a
-- store is `some` number and NULL is `none`; a function whose C text may read through NULL returns
-- `none` there. So do the writes of readline to its buffer and of `fat16_create_file` to its array
-- where they are outside of it, and `atoi` where its `int` overflows. Printing, the TLB flush and
-- loading CR3 by assembly have no counterpart, but the value loaded into CR3 and the registers handed
-- to `asm_enter_task` are part of the state.
--
-- Bounds and fuel. The loop of `pfa_alloc` runs over its 1024 frames. The loops of
-- `page_map_between` and `page_unmap_between` are given fuel; one round for each page of the range
-- and one more are enough.
-- The parser is given one round more than the path has characters.
-- The loops that run to a NUL are given fuel, as the theorems about them say how much.
--
-- A stream is given as many rounds as there are bytes to move, `fat16_read` and the loop of
-- `fat16_write` as many as bytes are asked for: each round moves one at least. The functions that
-- follow a chain of clusters are given fuel, since a chain on the disk may be circular.
--
-- The search of the free blocks of User/Heap and the passes of `kmalloc` are given fuel; more than
-- the free list is long is enough for the first. `utoa` is given a round for each digit.
--
-- The drive. The driver of the disk is an argument, and no result of it is assumed but where a
-- theorem says that the drive answers. The position of a stream on the device does not outlive a
-- call of the FAT16 driver, each of which seeks first.
--
-- The headers and the payloads of the user heap are kept apart, so no write to a payload damages a
-- header.
--
-- Not modelled: opening, closing and listing of FAT16 files, formatted output and the files of the user
-- library, interrupt and descriptor tables, device registers and assembly, the boot code, and the 64-bit kernel.
pub mod Base
pub mod Errno
pub mod Fifo
pub mod Sched
pub mod Memory
pub mod Path
pub mod Libc
pub mod Stream
pub mod Fat16
pub mod Vfs
pub mod Devices
pub mod User
