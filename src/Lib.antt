-- ===== src/Lib.antt =====
-- Verification of the kernel: scheduling, fork, signals, memory, files, buffers, terminals.
--
-- The kernel is a small Unix for the i386: one table of tasks (kernel/sched.c), system calls that
-- read and change the current task and the table (kernel/sys.c, kernel/exit.c), a page allocator
-- with reference counts under copy on write (mm/memory.c), and files behind descriptors
-- (fs/fcntl.c, fs/open.c, fs/pipe.c). The parts meet in the task structure, in the wait queues that
-- a blocking call sleeps on, and in the counts of shared pages and files.
--
-- - Base: the shared names; integers with the wrap-around of 32 bits (Base/Int), the bits of a
--   word (Base/Bits), tables indexed by a number (Base/Family).
-- - Task: `struct task_struct` and `task[NR_TASKS]` of include/linux/sched.h. A pointer to a task
--   is the slot that holds it. Task/Table has the walk from the last slot down to slot 1.
-- - Sched: kernel/sched.c. `schedule` is phase 1 (`check_task` at each task), the scan and the
--   recharge; Sched/Queue has `sleep_on`, `interruptible_sleep_on` and `wake_up`, split where
--   `schedule()` stands; Sched/Calls has `do_timer` and the calls. `choose` is the endless loop
--   of `schedule` on fuel: two rounds are enough when the priorities are positive, since one
--   recharge gives every task a positive slice.
-- - Sys: kernel/sys.c. A call takes the current task, or the table, and returns its result with
--   what it changed.
-- - Exit: kernel/exit.c. `waitpid_pass` is one walk of `sys_waitpid`, up to its return or to its
--   `sys_pause`, after which `after_pause` says whether it starts again.
--   Exit/Leave has `do_exit` up to its `schedule()`.
-- - Memory: mm/memory.c. Physical memory is a table of words with the page directory at 0, and
--   `mem_map` a table of counts; Memory/Share has the page tables of fork and exit.
-- - Pipe: fs/pipe.c. A pipe is its page and two indices; a call that has to sleep stops there,
--   with what it has done and what is left. Pipe/Open has `sys_pipe`.
-- - Files: fs/fcntl.c and `sys_close` of fs/open.c, on the descriptors of the current process and
--   the file table.
-- - Fork: kernel/fork.c. `find_empty_process` tries pids on fuel: one more try than there are
--   tasks is enough. `copy_process` works on memory, the task table and the counts of files and
--   inodes; the bases and limits of the segments are its argument.
-- - Inodes: `permission` of fs/namei.c and the calls of fs/open.c on modes and owners; the inode
--   that a path leads to is an argument.
-- - Tty: the queues of include/linux/tty.h, and of kernel/tty_io.c `copy_to_cooked` and the inner
--   loop of `tty_write`, which has two rounds at most for a byte. The loop of the first takes
--   a character in each round, and a queue holds less than 1024. The `write` function of a
--   terminal is a parameter.
-- - Vsprintf: kernel/vsprintf.c. `number` appends to a list of characters; 32 divisions are enough
--   for a base from 2 on, and the loop over the format has a round for each of its characters.
-- - Buffer: fs/buffer.c. A buffer is its number, from 1, and 0 is NULL: the entry 0 stands for what
--   a write through NULL changes. Base/Links has doubly linked lists; Buffer/Ring and
--   Buffer/Chains have the free list and the hash chains as lists, Buffer/Lru what makes a cache,
--   Buffer/Getblk `getblk`. The driver and the sleeps are a parameter. A chain is walked for as
--   many buffers as there are and the free list once round, and one round of `getblk` is enough
--   when nothing is locked.
-- - Zones: fs/bitmap.c and `_bmap` of fs/inode.c, on a device as the buffer cache shows it: the
--   words of its blocks, whether one can be read, the users of its buffer, and what the disk has,
--   which shows again when `free_block` drops a buffer; no buffer is written back meanwhile. The map
--   of the zones is one row of bits; the loops over it have a round for each bit and each block of
--   the map.
-- - Truncate: fs/truncate.c, on that device; the loops have a round for each word of a list and for
--   each direct zone.
-- - Itable: the table of inodes of fs/inode.c, with `sync_inodes`; `truncate` and `free_inode` in
--   `iput` are a parameter. The walks through the table have a round for each of its 32 entries.
--   Imap: `new_inode` and `free_inode` of fs/bitmap.c, on that table and the map of the inodes of a
--   device.
-- - Console: kernel/console.c. Video memory is a table of words; `con_write` takes the characters
--   of the write queue one by one through its five states (Console/Write), and Console/Bounds has
--   the bounds of the cursor and of what is written.
-- - Mktime: kernel/mktime.c, against the Gregorian calendar of Mktime/Calendar.
-- - Examples: the theorems at concrete inputs.
--
-- The kernel does not preempt itself: a function that does not call `schedule()` is one
-- step, and where one calls it in its middle the model has one function for each side. A
-- panic, and a process that is killed, are results of their own. What is printed is left out.
--
-- Not modelled: assembly and boot code, the disk and serial drivers, program loading, and of the
-- file system the directories, and reading and writing of files.
pub mod Base
pub mod Mktime
pub mod Task
pub mod Sched
pub mod Sys
pub mod Exit
pub mod Memory
pub mod Pipe
pub mod Files
pub mod Fork
pub mod Inodes
pub mod Tty
pub mod Vsprintf
pub mod Examples
pub mod Buffer
pub mod Console
pub mod Zones
pub mod Itable
pub mod Imap
pub mod Truncate
