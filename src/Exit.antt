-- ===== src/Exit.antt =====
-- kernel/exit.c: signals to processes and waiting for children.
pub mod Kill
pub mod Wait
pub mod Leave
use rhee_creatives_linux_v.Base.{
  ℕ, zero, suc, ◌+◌, ◌-◌, Option, none, some, Bool, true, false, ◌&&◌, ◌||◌, not, if◌then◌else◌,
  ◌==◌, leb, update, bit_and,
}
use rhee_creatives_linux_v.Base.Int.{
  ℤ, pos, negsuc, neg, pos_part, ◌+ℤ◌, ◌-ℤ◌, ◌==ℤ◌, ltb_ℤ, wrap32,
}
use rhee_creatives_linux_v.Base.Bits.{with_bit, without_bit}
use rhee_creatives_linux_v.Task.{TaskState, Task, Tasks, is_zombie, nr_tasks, last_task, sigchld}
use rhee_creatives_linux_v.Task.Table.{at_slot, for_tasks}
use rhee_creatives_linux_v.Sched.{Sched}

-- `release` of a task by its slot, up to the return of its page: the table, or a panic.
pub release : ℕ → Tasks → Option Tasks
release i ts =
    if i == 0 || leb nr_tasks i
    then none
    else elim (ts i) [ none ↦ none | some t ↦ some (update ts i none) ]

-- The caller `me` has one of its two users in common with the task.
abbrev pub same_user : Task → Task → Bool
same_user me t = me.uid == t.uid || me.euid == t.uid || me.uid == t.euid || me.euid == t.euid

pub send_sig : Task → ℤ → Bool → Task → Task
send_sig me sig priv t =
    if ltb_ℤ sig (pos 1) || ltb_ℤ (pos 32) sig
    then t
    else if priv || same_user me t
    then record t { signal = with_bit t.signal (pos_part sig - 1) }
    else t

-- The four tests of `do_kill` on a task of the walk.
pub is_target : Task → ℤ → Task → Bool
is_target me pid t =
    if pid ==ℤ pos 0
    then t.pgrp ==ℤ me.pid
    else if ltb_ℤ (pos 0) pid
    then t.pid ==ℤ pid
    else if pid ==ℤ negsuc 0
    then true
    else t.pgrp ==ℤ wrap32 (pos 0 -ℤ pid)

-- `while (--p > &FIRST_TASK)` from one past the last slot.
pub do_kill : Task → ℤ → ℤ → Bool → Tasks → Tasks
unfolding is_target send_sig
do_kill me pid sig priv ts =
    for_tasks (λ t. if is_target me pid t then send_sig me sig priv t else t) last_task ts

pub sys_kill : Task → ℤ → ℤ → Tasks → ℤ × Tasks
unfolding do_kill
sys_kill me pid sig ts = (pos 0, do_kill me pid sig (me.uid == 0 && me.euid == 0) ts)

-- The test of `sys_waitpid` on the task of another slot.
pub is_waited : Task → ℤ → Task → Bool
is_waited me pid t =
    (pid ==ℤ negsuc 0
      || t.pid ==ℤ pid
      || (pid ==ℤ pos 0 && t.pgrp ==ℤ me.pgrp)
      || (ltb_ℤ pid (pos 0) && t.pgrp ==ℤ wrap32 (pos 0 -ℤ pid)))
    && t.father ==ℤ me.pid

-- What one walk over the table finds: a zombie child, or whether there is a child.
pub data Child : Type 0 where
  dead : ℕ → Task → Child
  living : Bool → Child

pub find_child : ℕ → Task → ℤ → Tasks → ℕ → Bool → Child
unfolding is_waited
find_child current me pid ts zero flag = Child.living flag
find_child current me pid ts (suc k) flag =
    let lower = find_child current me pid ts k flag in
    let child = find_child current me pid ts k true in
    elim (ts (suc k)) [
      | none ↦ lower
      | some t ↦
          if suc k == current || not (is_waited me pid t)
          then lower
          else if is_zombie t.state
          then Child.dead (suc k) t
          else child
    ]

-- How `sys_waitpid` goes on from one walk.
pub data Waited : Type 0 where
  -- The child is released: its pid and exit code, and the table with the caller's times.
  reaped : (pid code : ℤ) (ts : Tasks) → Waited
  -- WNOHANG, and no child is dead.
  nothing : Waited
  -- The caller sleeps in `sys_pause`, and then goes on with `after_pause`.
  pauses : Waited
  no_child : Waited
  -- The child was in no slot that `release` looks at.
  panicked : Waited

-- The caller's times, then `release`.
pub reap : ℕ → Task → ℕ → Task → Tasks → Waited
unfolding release
reap current me i t ts =
    let paid : Tasks = update ts current (
      some (record me {
        cutime = wrap32 (me.cutime +ℤ t.utime);
        cstime = wrap32 (me.cstime +ℤ t.stime);
      })) in
    elim (release i paid) [
      | none ↦ Waited.panicked
      | some ts' ↦ Waited.reaped t.pid t.exit_code ts'
    ]

pub waitpid_pass : ℕ → Task → ℤ → Bool → Tasks → Waited
unfolding find_child reap
waitpid_pass current me pid wnohang ts = elim (find_child current me pid ts last_task false) [
  | Child.dead i t ↦ reap current me i t ts
  | Child.living true ↦ if wnohang then Waited.nothing else Waited.pauses
  | Child.living false ↦ Waited.no_child
]

-- After `sys_pause`: SIGCHLD is taken off; whether the call starts again, or ends with -EINTR.
pub after_pause : Task → Bool × Task
after_pause me =
    let left = without_bit 32 me.signal (sigchld - 1) in (left == 0, record me { signal = left })
