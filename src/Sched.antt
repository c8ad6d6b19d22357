-- ===== src/Sched.antt =====
-- kernel/sched.c: the choice of the next task, sleeping and waking, the clock tick, and the system
-- calls beside them. A function that gives up the processor is split where `schedule()` stands.
pub mod Pick
pub mod Fair
pub mod Alarm
pub mod Queue
pub mod Calls
use rhee_creatives_linux_v.Base.{
  ℕ, zero, suc, ◌+◌, ◌-◌, ◌*◌, Option, none, some, Bool, true, false, ◌&&◌, ◌||◌, not,
  if◌then◌else◌, ◌==◌, ltb, leb, update, bit_or,
}
use rhee_creatives_linux_v.Base.Int.{
  ℤ, pos, negsuc, ◌+ℤ◌, ◌-ℤ◌, ◌*ℤ◌, ◌==ℤ◌, ltb_ℤ, shr_one, wrap32, div_ℤ,
}
use rhee_creatives_linux_v.Base.Bits.{with_bit}
use rhee_creatives_linux_v.Task.{
  TaskState, Task, Tasks, is_running, is_interruptible, nr_tasks, last_task, sigalrm,
}
use rhee_creatives_linux_v.Task.Table.{at_slot, for_tasks}

-- The globals of the scheduler.
pub record Sched : Type 0 where
  pub task : Tasks
  pub current : ℕ
  pub jiffies : ℤ

-- Phase 1 of `schedule` at one task: its alarm, then its pending signals.
unfoldable pub ring_alarm : ℤ → Task → Task
ring_alarm now t =
    if not (t.alarm ==ℤ pos 0) && ltb_ℤ t.alarm now
    then record t { signal = with_bit t.signal (sigalrm - 1); alarm = pos 0 }
    else t

unfoldable pub wake_signalled : Task → Task
wake_signalled t =
    if not (t.signal == 0) && is_interruptible t.state
    then record t { state = TaskState.running }
    else t

unfoldable pub check_task : ℤ → Task → Task
check_task now t = wake_signalled (ring_alarm now t)

-- Phase 2: `while (--i)` over the slots below `suc k`, with the best counter and its slot so far.
unfoldable pub better : Option Task → ℤ → Bool
better none c = false
better (some t) c = is_running t.state && ltb_ℤ c t.counter

abbrev pub counter_of : Option Task → ℤ → ℤ
counter_of none c = c
counter_of (some t) c = t.counter

unfoldable pub scan : Tasks → ℕ → ℤ → ℕ → ℤ × ℕ
scan ts zero c next = (c, next)
scan ts (suc k) c next =
    if better (ts (suc k)) c
    then scan ts k (counter_of (ts (suc k)) c) (suc k)
    else scan ts k c next

-- Phase 3: `counter = (counter >> 1) + priority` for every task.
unfoldable pub recharge : Task → Task
recharge t = record t { counter = wrap32 (shr_one t.counter +ℤ t.priority) }

-- `while (1) { ...; if (c) break; ... }` on fuel: the task chosen, and the table.
unfoldable pub choose : ℕ → Tasks → Option (ℕ × Tasks)
choose zero ts = none
choose (suc fuel) ts =
    let again = choose fuel (for_tasks recharge last_task ts) in
    let (c, next) = scan ts last_task (negsuc 0) 0 in if c ==ℤ pos 0 then again else some (next, ts)

-- Two rounds are enough when the priorities are positive: one recharge.
abbrev pub rounds : ℕ
rounds = 2

-- `schedule()` up to the moment at which the chosen task runs; `switch_to` makes it current.
unfoldable pub schedule : Sched → Option Sched
schedule s = elim (choose rounds (for_tasks (check_task s.jiffies) last_task s.task)) [
  | none ↦ none
  | some (next, ts) ↦ some (record s { task = ts; current = next })
]
