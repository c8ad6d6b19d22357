-- ===== src/Sched/Queue.antt =====
-- kernel/sched.c: `sleep_on`, `interruptible_sleep_on` and `wake_up` on a wait queue `*p`. A queue
-- is one pointer; each sleeper keeps the sleeper before it in the local variable `tmp`.
pub mod Lossless
use rhee_creatives_linux_v.Base.{ℕ, Option, none, some, Bool, ◌&&◌, if◌then◌else◌, ◌==◌, not}
use rhee_creatives_linux_v.Task.{TaskState, Task, Tasks}
use rhee_creatives_linux_v.Task.Table.{at_slot}
use rhee_creatives_linux_v.Sched.{Sched}

-- `(**q).state = s` through a task pointer, where it is not NULL.
abbrev pub set_state : Option ℕ → TaskState → Tasks → Tasks
set_state none st ts = ts
set_state (some i) st ts = at_slot (λ t. record t { state = st }) i ts

-- How a call of a sleeping function stands at its `schedule()`.
pub data Sleep : Type 0 where
  -- The queue pointer was NULL: the call returned.
  returned : Sleep
  -- Task 0 tried to sleep.
  panicked : Sleep
  -- Asleep, with `tmp` saved, the new head of the queue and the new table.
  asleep : (tmp : Option ℕ) (head : Option ℕ) (ts : Tasks) → Sleep

-- Both functions up to `schedule()`; they differ in the state that is set.
unfoldable pub enter_queue : TaskState → Sched → Option (Option ℕ) → Sleep
enter_queue st s none = Sleep.returned
enter_queue st s (some head) =
    if s.current == 0
    then Sleep.panicked
    else Sleep.asleep head (some s.current) (set_state (some s.current) st s.task)

unfoldable pub sleep_on : Sched → Option (Option ℕ) → Sleep
unfolding enter_queue
sleep_on s p = enter_queue TaskState.uninterruptible s p

-- `sleep_on` from the return of `schedule()` on.
unfoldable pub sleep_on_resume : Option ℕ → Tasks → Tasks
sleep_on_resume tmp ts = set_state tmp TaskState.running ts

pub interruptible_sleep_on : Sched → Option (Option ℕ) → Sleep
unfolding enter_queue
interruptible_sleep_on s p = enter_queue TaskState.interruptible s p

abbrev other_head : ℕ → Option ℕ → Bool
other_head me none = Bool.false
other_head me (some i) = not (i == me)

-- `interruptible_sleep_on` from the return of `schedule()` on: whether it sleeps again, the head of
-- the queue and the table.
pub interruptible_resume : ℕ → Option ℕ → Option ℕ → Tasks → Bool × Option ℕ × Tasks
interruptible_resume me tmp head ts =
    if other_head me head
    then (
      Bool.true,
      head,
      set_state (some me) TaskState.interruptible (set_state head TaskState.running ts),
    )
    else (Bool.false, none, set_state tmp TaskState.running ts)

-- `wake_up` of a queue pointer that is not NULL: the head and the table.
unfoldable pub wake_up : Option ℕ → Tasks → Option ℕ × Tasks
wake_up head ts = (none, set_state head TaskState.running ts)
