-- ===== src/Task.antt =====
-- include/linux/sched.h: the task structure, the task table and the walks over it.
-- A pointer to a task structure is the slot of the table that holds it.
pub mod Table
use rhee_creatives_linux_v.Base.{ℕ, Option, Bool, true, false}
use rhee_creatives_linux_v.Base.Int.{ℤ}

-- TASK_RUNNING to TASK_STOPPED.
pub data TaskState : Type 0 where
  running interruptible uninterruptible zombie stopped : TaskState

abbrev pub is_running : TaskState → Bool
is_running TaskState.running = true
is_running TaskState.interruptible = false
is_running TaskState.uninterruptible = false
is_running TaskState.zombie = false
is_running TaskState.stopped = false

abbrev pub is_interruptible : TaskState → Bool
is_interruptible TaskState.running = false
is_interruptible TaskState.interruptible = true
is_interruptible TaskState.uninterruptible = false
is_interruptible TaskState.zombie = false
is_interruptible TaskState.stopped = false

abbrev pub is_zombie : TaskState → Bool
is_zombie TaskState.running = false
is_zombie TaskState.interruptible = false
is_zombie TaskState.uninterruptible = false
is_zombie TaskState.zombie = true
is_zombie TaskState.stopped = false

-- `struct task_struct`, without the segment descriptors and the saved registers. A `long` is an
-- integer, a bit set or an address a number; `sig_fn` and `filp` are indexed from 0, and an inode
-- or a file is named by its index in its table.
pub record Task : Type 0 where
  pub state : TaskState
  pub counter : ℤ
  pub priority : ℤ
  pub signal : ℕ
  pub sig_restorer : ℕ
  pub sig_fn : ℕ → ℕ
  pub exit_code : ℤ
  pub end_code : ℕ
  pub end_data : ℕ
  pub brk : ℕ
  pub start_stack : ℕ
  pub pid : ℤ
  pub father : ℤ
  pub pgrp : ℤ
  pub session : ℤ
  pub leader : Bool
  pub uid : ℕ
  pub euid : ℕ
  pub suid : ℕ
  pub gid : ℕ
  pub egid : ℕ
  pub sgid : ℕ
  pub alarm : ℤ
  pub utime : ℤ
  pub stime : ℤ
  pub cutime : ℤ
  pub cstime : ℤ
  pub start_time : ℤ
  pub used_math : Bool
  pub tty : ℤ
  pub umask : ℕ
  pub pwd : Option ℕ
  pub root : Option ℕ
  pub close_on_exec : ℕ
  pub filp : ℕ → Option ℕ

-- The table `task[NR_TASKS]`.
abbrev pub Tasks : Type 0
Tasks = ℕ → Option Task

abbrev pub nr_tasks : ℕ
nr_tasks = 64

-- The slot of LAST_TASK; that of FIRST_TASK is 0.
abbrev pub last_task : ℕ
last_task = 63

abbrev pub sigchld : ℕ
sigchld = 17

abbrev pub sigalrm : ℕ
sigalrm = 14
