-- ===== src/Sched/Calls.antt =====
-- kernel/sched.c: the clock tick and the system calls on the current task. A call returns its
-- result and the task.
pub mod Laws
use rhee_creatives_linux_v.Base.{
  ℕ, zero, suc, ◌+◌, ◌-◌, ◌*◌, Option, none, some, Bool, true, false, ◌&&◌, ◌||◌, not,
  if◌then◌else◌, ◌==◌, ltb, leb, update,
}
use rhee_creatives_linux_v.Base.Int.{
  ℤ, pos, negsuc, pos_part, ◌+ℤ◌, ◌-ℤ◌, ◌*ℤ◌, ◌==ℤ◌, ltb_ℤ, wrap32, div_ℤ, signed32,
}
use rhee_creatives_linux_v.Task.{TaskState, Task, Tasks}
use rhee_creatives_linux_v.Task.Table.{at_slot}
use rhee_creatives_linux_v.Sched.{Sched, schedule}

abbrev pub hz : ℕ
hz = 100

-- `do_timer` on the current task: the times, then the slice.
unfoldable pub charge_tick : Bool → Task → Task
charge_tick user t =
    if user
    then record t { utime = wrap32 (t.utime +ℤ pos 1) }
    else record t { stime = wrap32 (t.stime +ℤ pos 1) }

unfoldable pub spend_tick : Task → Task
spend_tick t =
    let left = wrap32 (t.counter -ℤ pos 1) in
    if ltb_ℤ (pos 0) left then record t { counter = left } else record t { counter = pos 0 }

unfoldable pub slice_left : Task → Bool
slice_left t = ltb_ℤ (pos 0) (wrap32 (t.counter -ℤ pos 1))

-- `user` is `cpl != 0`. Without a current task nothing happens.
unfoldable pub do_timer : Bool → Sched → Option Sched
do_timer user s = elim (s.task s.current) [
  | none ↦ some s
  | some t ↦
      let s' : Sched = record s {
        task = update s.task s.current (some (spend_tick (charge_tick user t)));
      } in
      if slice_left t || not user then some s' else schedule s'
]

-- `sys_pause` up to its `schedule()`.
pub sys_pause : Sched → Option Sched
sys_pause s = schedule (record s {
  task = at_slot (λ t. record t { state = TaskState.interruptible }) s.current s.task;
})

-- `jiffies` is an argument of the calls that read it.
pub sys_alarm : ℤ → ℤ → Task → ℤ × Task
sys_alarm jiffies seconds t = (
  if t.alarm ==ℤ pos 0 then t.alarm else div_ℤ (wrap32 (t.alarm -ℤ jiffies)) hz,
  record t {
    alarm = if ltb_ℤ (pos 0) seconds then wrap32 (jiffies +ℤ pos hz *ℤ seconds) else pos 0;
  },
)

pub sys_nice : ℤ → Task → ℤ × Task
sys_nice increment t =
    let lowered = wrap32 (t.priority -ℤ increment) in
    (pos 0, if ltb_ℤ (pos 0) lowered then record t { priority = lowered } else t)

-- The signals of the `case` labels: SIGHUP, SIGINT, SIGQUIT, SIGILL, SIGTRAP, SIGABRT, SIGFPE,
-- SIGUSR1, SIGSEGV, SIGUSR2, SIGPIPE, SIGALRM and SIGCHLD.
abbrev pub may_handle : ℕ → Bool
may_handle n =
    (leb 1 n && leb n 6) || n == 8 || n == 10 || n == 11 || n == 12 || n == 13 || n == 14 || n == 17

-- An address is returned as a `long`.
pub sys_signal : ℤ → ℕ → ℕ → Task → ℤ × Task
sys_signal signal addr restorer t =
    if ltb_ℤ signal (pos 1) || ltb_ℤ (pos 32) signal
    then (negsuc 0, t)
    else if may_handle (pos_part signal)
    then (
      signed32 (t.sig_fn (pos_part signal - 1)),
      record t { sig_fn = update t.sig_fn (pos_part signal - 1) addr; sig_restorer = restorer },
    )
    else (negsuc 0, t)

pub sys_getpid : Task → ℤ
sys_getpid t = t.pid

pub sys_getppid : Task → ℤ
sys_getppid t = t.father

pub sys_getuid : Task → ℕ
sys_getuid t = t.uid

pub sys_geteuid : Task → ℕ
sys_geteuid t = t.euid

pub sys_getgid : Task → ℕ
sys_getgid t = t.gid

pub sys_getegid : Task → ℕ
sys_getegid t = t.egid
