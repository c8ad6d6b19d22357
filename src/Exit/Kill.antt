-- ===== src/Exit/Kill.antt =====
-- kernel/exit.c: which tasks a signal reaches.
use rhee_creatives_linux_v.Base.{
  ℕ, ◌-◌, ◌≤◌, ◌≡◌, refl, none, some, Bool, ◌&&◌, ◌||◌, if◌then◌else◌, ◌==◌, arith,
}
use rhee_creatives_linux_v.Base.Int.{ℤ, pos}
use rhee_creatives_linux_v.Base.Bits.{bit, bit-with_bit}
use rhee_creatives_linux_v.Task.{Task, Tasks, last_task}
use rhee_creatives_linux_v.Task.Table.{for_tasks_lem}
use rhee_creatives_linux_v.Exit.{same_user, send_sig, is_target, sys_kill}

-- A task after a signal: its bit is set exactly if the sender may, and nothing else has changed.
pub record Signalled (me : Task) (sig : ℕ) (priv hit : Bool) (t u : Task) : Type 0 where
  pub bits :
      (n : ℕ)
      → bit u.signal n ≡ (bit t.signal n || (hit && (priv || same_user me t) && n == sig - 1))
  pub rest : u ≡ record t { signal = u.signal }

send_sig-Signalled :
    (me : Task) (sig : ℕ) (priv hit : Bool) (t : Task)
    → 1 ≤ sig
    → sig ≤ 32
    → Signalled me sig priv hit t (if hit then send_sig me (pos sig) priv t else t)
unfolding send_sig
send_sig-Signalled me sig priv hit t low high = record {
  bits = λ n. ground (arith, bit-with_bit t.signal (sig - 1) n);
  rest = ground arith;
}

-- `sys_kill` of a signal from 1 to 32: in the slots 1 to 63 it sets the bit of the signal exactly in
-- the targets that the caller may signal, being privileged or sharing a user with them, and
-- changes nothing else; slot 0 and empty slots stay as they are, and the result is 0 whether or
-- not a task was reached.
pub sys_kill-Signalled :
    (me : Task) (pid : ℤ) (sig : ℕ) (ts : Tasks)
    → 1 ≤ sig
    → sig ≤ 32
    → ((sys_kill me pid (pos sig) ts).0 ≡ pos 0)
      × ((sys_kill me pid (pos sig) ts).1 0 ≡ ts 0)
      × ((j : ℕ) → ts j ≡ none → (sys_kill me pid (pos sig) ts).1 j ≡ none)
      × ((j : ℕ) (t : Task)
          → 1 ≤ j
          → j ≤ last_task
          → ts j ≡ some t
          → (u : Task) × ((sys_kill me pid (pos sig) ts).1 j ≡ some u)
            × Signalled me sig (me.uid == 0 && me.euid == 0) (is_target me pid t) t u)
unfolding sys_kill
sys_kill-Signalled me pid sig ts low high = (
  refl,
  ground (arith, for_tasks_lem kill last_task ts 0),
  λ j e. ground (arith, for_tasks_lem kill last_task ts j),
  λ j t above below here. (
    kill t,
    ground (arith, for_tasks_lem kill last_task ts j),
    send_sig-Signalled me sig _ _ t low high,
  ),
)
  where
    kill : Task → Task
    kill t = if is_target me pid t then send_sig me (pos sig) (me.uid == 0 && me.euid == 0) t else t
