-- ===== src/Sys.antt =====
-- kernel/sys.c: the calls on the identity, the session and the limits of the current task. A call
-- returns its result, an errno with its sign, beside what it changes.
pub mod Ids
pub mod Groups
use rhee_creatives_linux_v.Base.{
  ℕ, zero, suc, ◌+◌, ◌-◌, ◌*◌, ◌%◌, ◌^◌, Option, none, some, Bool, true, false, ◌&&◌, ◌||◌, not,
  if◌then◌else◌, ◌==◌, ltb, leb, update, bit_and, arith,
}
use rhee_creatives_linux_v.Base.Int.{ℤ, pos, negsuc, neg, ◌+ℤ◌, ◌-ℤ◌, ◌==ℤ◌, wrap32, div_ℤ}
use rhee_creatives_linux_v.Task.{Task, Tasks, nr_tasks}

-- `-EPERM`, `-ESRCH`, `-ENOSYS`.
abbrev pub eperm : ℤ
eperm = neg 1

abbrev pub esrch : ℤ
esrch = neg 3

abbrev pub enosys : ℤ
enosys = neg 38

-- `current->euid && current->uid`: neither is 0.
abbrev pub unprivileged : Task → Bool
unprivileged t = not (t.euid == 0) && not (t.uid == 0)

-- An `int` stored in an `unsigned short`.
abbrev pub u16 : ℕ → ℕ
u16 n = n % 2 ^ 16

-- The argument is an `int` that is not negative, so the comparisons are those of numbers.
pub sys_setgid : ℕ → Task → ℤ × Task
sys_setgid gid t =
    if unprivileged t
    then (if t.gid == gid || t.sgid == gid
        then (pos 0, record t { egid = u16 gid })
        else (eperm, t))
    else (pos 0, record t { gid = u16 gid; egid = u16 gid })

pub sys_setuid : ℕ → Task → ℤ × Task
sys_setuid uid t =
    if unprivileged t
    then (if uid == t.uid || t.suid == t.uid
        then (pos 0, record t { euid = u16 uid })
        else (eperm, t))
    else (pos 0, record t { euid = u16 uid; uid = u16 uid })

-- `CURRENT_TIME`.
abbrev pub current_time : ℤ → ℤ → ℤ
current_time startup_time jiffies = wrap32 (startup_time +ℤ div_ℤ jiffies 100)

-- The result, and what is stored where the pointer is not NULL.
pub sys_time : Bool → ℤ → ℤ → ℤ × Option ℤ
sys_time given startup_time jiffies =
    let now = current_time startup_time jiffies in (now, if given then some now else none)

-- `struct tms`.
pub record Tms : Type 0 where
  pub tms_utime : ℤ
  pub tms_stime : ℤ
  pub tms_cutime : ℤ
  pub tms_cstime : ℤ

pub sys_times : Bool → ℤ → Task → ℤ × Option Tms
sys_times given jiffies t = (
  jiffies,
  if given
      then some (record {
        tms_utime = t.utime;
        tms_stime = t.stime;
        tms_cutime = t.cutime;
        tms_cstime = t.cstime;
      })
      else none,
)

-- `value` is what `get_fs_long(tptr)` reads; the result and the new `startup_time`.
pub sys_stime : ℤ → ℤ → ℤ → Task → ℤ × ℤ
sys_stime value startup_time jiffies t =
    if unprivileged t
    then (negsuc 0, startup_time)
    else (pos 0, wrap32 (value -ℤ div_ℤ jiffies 100))

-- The comparison is of unsigned numbers, and so is the difference.
pub sys_brk : ℕ → Task → ℕ × Task
sys_brk end_data_seg t =
    let t' : Task =
      if leb t.end_code end_data_seg && ltb end_data_seg ((t.start_stack + 2 ^ 32 - 16384) % 2 ^ 32)
      then record t { brk = end_data_seg }
      else t in
    (t'.brk, t')

-- The loop of `sys_setpgid`: the first slot from `i` on, of `n`, whose task has the pid.
pub find_pid : ℤ → Tasks → ℕ → ℕ → Option (ℕ × Task)
find_pid pid ts zero i = none
find_pid pid ts (suc n) i =
    let later = find_pid pid ts n (i + 1) in
    elim (ts i) [ none ↦ later | some t ↦ if t.pid ==ℤ pid then some (i, t) else later ]

abbrev or_default : ℤ → ℤ → ℤ
or_default a d = if a ==ℤ pos 0 then d else a

-- `me` is the current task.
pub sys_setpgid : ℤ → ℤ → Task → Tasks → ℤ × Tasks
unfolding find_pid
sys_setpgid pid pgid me ts =
    let target = or_default pid me.pid in
    elim (find_pid target ts nr_tasks 0) [
      | none ↦ (esrch, ts)
      | some (i, t) ↦
          if t.leader || not (t.session ==ℤ me.session)
          then (eperm, ts)
          else (pos 0, update ts i (some (record t { pgrp = or_default pgid target })))
    ]

pub sys_getpgrp : Task → ℤ
sys_getpgrp t = t.pgrp

pub sys_setsid : Task → ℤ × Task
sys_setsid t =
    if unprivileged t || t.leader
    then (eperm, t)
    else (t.pid, record t { leader = true; session = t.pid; pgrp = t.pid; tty = negsuc 0 })

-- `mask & 0777`.
pub sys_umask : ℕ → Task → ℕ × Task
sys_umask mask t = (t.umask, record t { umask = bit_and mask 0o777 })
