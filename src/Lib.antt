-- ===== src/Lib.antt =====
-- moOS, a 32-bit x86 operating system: models of its kernel and the theorems about them.
--
-- The kernel keeps one table of tasks. The timer interrupt counts ticks and lets the scheduler
-- choose the next task; a task blocks on a channel (a pipe or a mutex), on the keyboard, on a
-- tick or on a child, and is woken from there. Mutexes lend the priority of a waiter to the owner.
-- Beside them stand the allocator of the kernel heap, the drivers, the paths of the file system and
-- the C library that the kernel links.
--
-- Prelude: names of the libraries, Boolean tests, lists, 32-bit words and error codes
--   (src/kernel/config.h).
-- Heap: src/kernel/memory/heap/heap.c. The block table is a list of bytes; `find_loop`,
--   `mark_loop` and `free_loop` are the loops of find_free_block, mark_taken_blocks and
--   heap_free_blocks. Heap/Segments describes a table as a list of free blocks and allocations.
-- Kernel: struct task, struct mutex and the static variables of src/kernel/task/task.c,
--   sched.c and mutex.c, as one record. A pointer to a task or a mutex is its index in the table,
--   and a null pointer is `none`.
-- Sched: src/kernel/task/sched.c. `switch_to` and `schedule` are schedule; the registers, the
--   stack, the page directory and the floating point state that it switches are left out, and whether the
--   next task resumes in schedule, as all but a new one do, is an argument.
-- Mutex: src/kernel/task/mutex.c. `lock_test` is the loop test of mutex_lock.
-- Task: src/kernel/task/task.c and pit_ms_to_ticks of src/drivers/timer/pit.c. Left out are the
--   screen, the files and the pages of a task, and task_spawn.
-- Ring: what arrays that are used as rings have in common.
-- Pipe: src/kernel/task/pipe.c. `write_round` is one round of the outer loop of pipe_write.
-- Keyboard: src/drivers/keyboard/keyboard.c. The two bytes that the ports give are arguments.
-- Libc: src/libc/ctype/ctype.c and the memory functions of src/libc/string/string.c.
-- KernelHeap: src/kernel/kmem/kheap.c, the heap with the bytes in its blocks.
-- Disk: src/drivers/disk/disk.c and disk_stream.c. The drive is the byte at each address; the ports
--   are left out. A position is the pattern of an int32_t, a negative one included, and a sector number
--   keeps the 29 bits that the ports take, of which the highest chooses the drive. `read_rounds` and
--   `write_rounds` are the loops of disk_stream_read and disk_stream_write, and
--   Disk/Overlay says what a list of bytes over others is.
-- Fat16: src/file_system/fat/fat16.c, over a Disk. Fat16/Volume holds the table of clusters and the
--   chains, ShortName and LongName the two forms of a name, Directory the search for a path, Create new
--   items, File and Change the operations on files, and Mount fat16_resolve.
-- Loader: src/kernel/task/elf.c. A file is the list of its bytes, a read outside of it is `none`, and the
--   callback that copies into the address space is an argument. set_image is the break of task_load.
-- Handles: the references of src/kernel/task/handle.c, and the descriptors of tasks in
--   src/kernel/task/task.c. A handle is its place in a list, and one that is freed leaves the place empty;
--   a step that would reach a freed handle is `none`. `step` runs what sys_open, task_fd_close, task_exit
--   and task_spawn do with the descriptors; memory does not run out.
-- FilePath: pathparser_resolve and pathparser_parse of src/file_system/path_parser.c.
-- Clock: src/drivers/rtc/rtc.c. The readings of the registers are a list; `settled` is the loop of
--   rtc_now that waits for two equal ones, and ends in `none` where the list does.
-- User: of the programs' libraries, the 64-bit division of src/user/lib/int64.c, of
--   src/user/libc/stdlib.c qsort and bsearch, and of src/user/lib/moos.c the allocator (Malloc), the
--   formats with atoi (Format). Malloc keeps its list of blocks in place of the links; the system call sbrk
--   is an argument, with the interface `Break` that Task/Break fills by task_sbrk. Format writes the
--   characters of a conversion first and puts them into the buffer then; the digits of a float are an
--   argument. A number that overruns the arrays of format_number has no text. User/Shell is
--   src/user/sh.c: the words of a line, the pipeline they stand for, the prefixes of
--   sh_execute_line, and sh_run_pipeline as the sequence of its system calls, whose answers are
--   arguments. What the shell prints is left out.
--
-- Numbers are natural numbers, with the wrap-around of 32 bits written out where the code adds,
-- subtracts or multiplies words that are not indices (add32, sub32, mul32 of Prelude/Word).
-- Addresses in Libc do not wrap around.
--
-- A function that blocks calls schedule in its middle and goes on when it is chosen again. The
-- model cuts it there: one definition is the part up to the call, another one the part behind it,
-- and the state in between is any state.
--
-- Loops over an array recurse on the rounds that are left, which is the length of the array. The
-- loop of boost_loop is given as many rounds as the code's own bound, and resolve_loop and parts_loop as
-- many as the path has bytes, of which each round takes one at least.
--
-- The loops of Disk and Fat16 that have fuel take a byte, an item or a cluster in each round: a read
-- and a write are given the bytes that are left, free_loop the entries of the table and the numbers
-- outside of it, and count_chain the items that these clusters hold.
-- In User, sift_loop and gap_loop are given the index and the gap that each round makes smaller, and
-- search_loop the items that are left. In User/Format digit_loop is given 64 rounds more than the wanted
-- digits, since a number has at most 64 bits, and text_loop the characters of the format, a round taking
-- one at least; in User/Shell token_loop has the bytes of the line.
--
-- In Fat16 an item of a directory is its 32 bytes, a volume has fewer than 2^31 bytes, the heap does
-- not run out, and the date and the time of the clock are arguments. Where the code reads through a
-- null pointer the model ends in `null_access` or `crashed`.
--
-- Not modelled: paging, the dispatch of system calls, the reads and writes of handles, the formats and
-- numbers of the kernel's C library, the screen and the mouse, start-up and interrupt
-- tables, the rest of the libraries of the programs, and the programs but for the shell.
pub mod Prelude
pub mod Heap
pub mod Kernel
pub mod Sched
pub mod Mutex
pub mod Task
pub mod Ring
pub mod Pipe
pub mod Keyboard
pub mod Libc
pub mod KernelHeap
pub mod Disk
pub mod Fat16
pub mod FilePath
pub mod Clock
pub mod Loader
pub mod Handles
pub mod User
