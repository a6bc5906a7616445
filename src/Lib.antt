-- ===== src/Lib.antt =====
-- The core of the NyanOS kernel, as definitions and theorems.
--
-- The kernel hands out physical frames, carves a heap out of them, keeps the ranges of each address
-- space in lists, and lets tasks talk through pipes that are ring buffers, message queues and shared
-- memory. Page tables map the frames into address spaces. A scheduler gives the processor to one task
-- after the other; tasks open files by paths, write escape sequences, and own windows that hide each
-- other. Each of these parts is a module, which names the source file it is about:
--
--   Ring       src/utils/ring_buf.h and the event queue of src/event/event.h: a ring of 256 slots.
--   Pipe       src/fs/pipe.c over a ring: `pipe_read` and `pipe_write` as the steps between `cli` and
--              `sti`, the closing of either end, `pipe_check_ready`; Pipe/System is a step relation
--              over any number of tasks.
--   Pmm        src/mem/pmm.c: the bitmap, the reference counts, `pmm_init`, `pmm_alloc_frame`,
--              `pmm_free_frame` and the others; Pmm/Owners is a step relation of tasks that own frames.
--   Kmalloc    src/mem/kmalloc.c: the list of free blocks, `kmalloc` and `kfree`, with the pages that
--              `request_new_page` adds.
--   Vmm        src/mem/vmm.c, the lists of free and of allocated ranges.
--   PageTables src/mem/vmm.c, the page tables over Pmm: the walk, `vmm_virt2phys`, `vmm_map_page`,
--              `vmm_unmap_page` and `vmm_handle_cow`. PageTables/Levels has the descent by levels,
--              PageTables/Inv the tree of tables, PageTables/Grow what new tables do to it.
--   Memory     src/string.c, the block routines `memcpy`, `memset`, `memmove`, `memcmp` and their SSE
--              versions, on a memory that is a function from addresses to bytes.
--   Strings    src/string.c, the functions on strings.
--   Mq         src/ipc/mq.c: the table of message queues, and sending and receiving by any tasks.
--   Sched      src/sched/sched.c: the circular list of tasks, `schedule`, `sched_block`, `sched_exit`,
--              `sched_kill`, the reaping of zombies, with `sys_fork`, `sys_waitpid` and `sys_sleep` of
--              src/arch/syscall.c, the wake-ups of src/ipc/mq.c and src/gui/window.c, and the start of
--              a program in src/main.c; Sched/Reach is a step relation of all of these.
--   Paths      src/fs/vfs.c, `resolve_path`: Paths/Names has the form of a resolved path, Paths/Reduce a
--              reference by names.
--   Vfs        src/fs/vfs.c, `vfs_mount` and `vfs_navigate`; the file systems that are mounted are
--              parameters.
--   Files      the handles of src/fs/vfs.c and the tables of file descriptors, with `sys_open`,
--              `sys_close` and `sys_dup2` of src/arch/syscall.c and what fork and exit do to the files
--              in src/sched/sched.c; Files/Owners is a step relation of these.
--   Tar        src/fs/tar.c, `tar_read_file`, with the `strcmp` of Strings.
--   Shm        src/ipc/shm.c: `shm_get`, and `shm_set_size` over the frame allocator of Pmm, with the
--              frames after its call of `kmalloc` as an argument.
--   Ansi       src/libc/ansi.c: the escape sequences of the console and the terminal. Ansi/Sequence is
--              about whole sequences, Ansi/Commands about what each command does, Ansi/Buffer about the
--              bounds of their buffer. The sums of `ansi_atoi` wrap round modulo 2 ^ 32 here; from
--              2 ^ 31 on those of the source have no defined value, and no parameter is so large in
--              the theorems on commands.
--   Clip       src/gui/window.c, `clip_rect` and `recalc_clip_list`: the rectangles of a window that no
--              window above it hides, point by point.
--   Windows    src/gui/window.c, the list of windows and their sizes; Windows/Clicks joins `get_win_at`
--              and the clip lists of Clip.
--   Base, Regions: what the parts share. Base has the Boolean tests, lists with an index and bit
--              operations on bytes; Regions has chains of address ranges, for Kmalloc and Vmm.
--
-- Numbers are ℕ. A sum that wraps round in the source is written with its modulus; ◌+64◌ adds
-- modulo 2 ^ 64. An array is a list, a linked list is the list of its nodes, and the memory that
-- nodes are kept in is not modelled where only the list matters. What `kmalloc` or `pmm_alloc_frame`
-- answers to a part that calls it is an argument of that part, but Shm and PageTables call Pmm. A
-- function under a spinlock, or between `cli` and `sti`, is one step. Coordinates on the screen are
-- kept as distances from a point far left of and above it. In Mq and Files, which have neither, a call up to where it
-- blocks or returns is one step, and a timer interrupt inside of it is not modelled.
--
-- Loops are recursive in the structure they walk. The loops of Memory that step by a chunk take fuel;
-- the length `n` of the range is given, which is enough since every round moves by one byte at
-- least, and the theorems on them say that the whole range is done. The fuel of the strings and that
-- of `walk_nodes` in Vfs is for a round more than the string has bytes; a round takes a byte at least.
-- That of `find_file` in Tar is for a round more than the archive has headers. A call of the scheduler
-- is one step, and so is a new task from its making to its place in the list; a later round of
-- `sys_waitpid` is a step only where the task is still in the list, since the source reads freed memory
-- otherwise.
--
-- Not modelled: the making, copying and freeing of whole page tables, the other file
-- systems, the drawing of windows, the drivers, the other system calls and the programs.
pub mod Base
pub mod Ring
pub mod Pipe
pub mod Pmm
pub mod Regions
pub mod Kmalloc
pub mod Vmm
pub mod Memory
pub mod Mq
pub mod Strings
pub mod Sched
pub mod Paths
pub mod Vfs
pub mod Files
pub mod Shm
pub mod PageTables
pub mod Ansi
pub mod Clip
pub mod Windows
pub mod Tar
