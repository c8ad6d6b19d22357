-- ===== src/Sched/Alarm.antt =====
-- kernel/sched.c: phase 1 of `schedule`, the alarms and the signals.
use rhee_creatives_linux_v.Base.{
  ℕ, ◌-◌, ◌≤◌, ◌≡◌, ◌≢◌, ap, none, some, Bool, ◌&&◌, ◌||◌, not, if◌then◌else◌, ◌==◌, arith,
}
use rhee_creatives_linux_v.Base.Int.{ℤ, pos, ◌==ℤ◌, ltb_ℤ}
use rhee_creatives_linux_v.Base.Bits.{bit, with_bit, bit-with_bit, zero-bit}
use rhee_creatives_linux_v.Task.{Task, TaskState, is_interruptible, last_task, sigalrm}
use rhee_creatives_linux_v.Task.Table.{for_tasks_lem}
use rhee_creatives_linux_v.Sched.{Sched, check_task, ring_alarm, wake_signalled}
use rhee_creatives_linux_v.Sched.Fair.{checked}

-- An alarm is set and its time has passed.
abbrev pub expired : ℤ → Task → Bool
expired now t = not (t.alarm ==ℤ pos 0) && ltb_ℤ t.alarm now

with_bit-ne-zero : (w n : ℕ) → with_bit w n ≢ 0
with_bit-ne-zero w n e = ground (arith, ap (λ (v : ℕ). bit v n) e, bit-with_bit w n n, zero-bit n)

-- Phase 1 at a task `t` that it leaves as `u`.
pub record Checked (now : ℤ) (t u : Task) : Type 0 where
  pub bits : (n : ℕ) → bit u.signal n ≡ (bit t.signal n || (expired now t && n == sigalrm - 1))
  pub alarm : u.alarm ≡ (if expired now t then pos 0 else t.alarm)
  pub state : u.state ≡ (
      if is_interruptible t.state && (expired now t || not (t.signal == 0))
      then TaskState.running
      else t.state)

check_task-Checked : (now : ℤ) (t : Task) → Checked now t (check_task now t)
unfolding check_task ring_alarm wake_signalled
check_task-Checked now t = record {
  bits = λ n. ground (arith, bit-with_bit t.signal (sigalrm - 1) n);
  alarm = ground arith;
  state = ground (arith, with_bit-ne-zero t.signal (sigalrm - 1));
}

-- Phase 1 of `schedule` at the slots 1 to 63: exactly an expired alarm adds SIGALRM to the pending
-- signals and is cleared, no other signal changes, and the task becomes runnable exactly if it
-- slept interruptibly and now has a signal. Slot 0 and empty slots stay as they are.
pub checked-Checked :
    (s : Sched) (j : ℕ)
    → (checked s 0 ≡ s.task 0)
      × (s.task j ≡ none → checked s j ≡ none)
      × ((t : Task)
          → s.task j ≡ some t
          → 1 ≤ j
          → j ≤ last_task
          → (u : Task) × (checked s j ≡ some u) × Checked s.jiffies t u)
checked-Checked s j = (
  ground (arith, for_tasks_lem (check_task s.jiffies) last_task s.task 0),
  λ gone. ground (arith, for_tasks_lem (check_task s.jiffies) last_task s.task j),
  λ t here low high. (
    check_task s.jiffies t,
    ground (arith, for_tasks_lem (check_task s.jiffies) last_task s.task j),
    check_task-Checked s.jiffies t,
  ),
)
