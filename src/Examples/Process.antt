-- ===== src/Examples/Process.antt =====
-- kernel/sched.c, kernel/exit.c and kernel/sys.c at concrete inputs.
use rhee_creatives_linux_v.Base.{
  ℕ, ◌+◌, ◌≤◌, ◌≡◌, refl, inl, inr, none, some, false, if◌then◌else◌, ◌==◌, ◌&&◌, update, arith,
  Bool-cases,
}
use rhee_creatives_linux_v.Base.Int.{ℤ, pos, negsuc}
use rhee_creatives_linux_v.Task.{Task, Tasks, TaskState, last_task}
use rhee_creatives_linux_v.Sched.{Sched, schedule}
use rhee_creatives_linux_v.Sched.Fair.{IsPaced, AllPaced, Picks, checked, schedule-Picks}
use rhee_creatives_linux_v.Sched.Alarm.{Checked, checked-Checked}
use rhee_creatives_linux_v.Sched.Queue.{
  Sleep, sleep_on, enter_queue, set_state, wake_up, sleep_on_resume,
}
use rhee_creatives_linux_v.Sched.Queue.Lossless.{Waiting, Step, here, next, sleep_on-lossless}
use rhee_creatives_linux_v.Exit.{Child, waitpid_pass, sys_kill, is_target}
use rhee_creatives_linux_v.Exit.Kill.{Signalled, sys_kill-Signalled}
use rhee_creatives_linux_v.Exit.Wait.{Finds, Outcome, waitpid_pass-Finds}

-- A task with a pid, a counter and a state; its father is task 1.
abbrev pub task_of : ℤ → ℤ → TaskState → Task
task_of pid counter state = record {
  state = state;
  counter = counter;
  priority = pos 15;
  signal = 0;
  sig_restorer = 0;
  sig_fn = λ i. 0;
  exit_code = pos 256;
  end_code = 0x1000;
  end_data = 0x2000;
  brk = 0x3000;
  start_stack = 0x3fff000;
  pid = pid;
  father = pos 1;
  pgrp = pos 1;
  session = pos 1;
  leader = false;
  uid = 100;
  euid = 100;
  suid = 100;
  gid = 10;
  egid = 10;
  sgid = 20;
  alarm = pos 0;
  utime = pos 3;
  stime = pos 4;
  cutime = pos 0;
  cstime = pos 0;
  start_time = pos 0;
  used_math = false;
  tty = pos 0;
  umask = 0o22;
  pwd = none;
  root = none;
  close_on_exec = 0;
  filp = λ i. none;
}

abbrev pub caller : Task
caller = task_of (pos 1) (pos 4) TaskState.running

-- Task 1 is the caller, task 2 a child that runs, task 3 a zombie child.
abbrev pub table : Tasks
table j =
    if j == 1
    then some caller
    else if j == 2
    then some (task_of (pos 2) (pos 0) TaskState.running)
    else if j == 3
    then some (task_of (pos 3) (pos 0) TaskState.zombie)
    else none

abbrev state : Sched
state = record { task = table; current = 1; jiffies = pos 1000 }

abbrev paced_of : (pid : ℤ) (n : ℕ) (st : TaskState) → n ≤ 30 → IsPaced (task_of pid (pos n) st)
paced_of pid n st h = record {
  pace = 14;
  priority_eq = refl;
  priority_lt = omega arith;
  left = n;
  counter_eq = refl;
  left_le = h;
}

table-AllPaced : AllPaced table
table-AllPaced j t e = elim (Bool-cases (j == 1)) [
  | inl one ↦
      let same : t ≡ caller = ground arith in
      rw same (paced_of (pos 1) 4 TaskState.running (omega arith))
  | inr not_one ↦ elim (Bool-cases (j == 2)) [
    | inl two ↦
        let same : t ≡ task_of (pos 2) (pos 0) TaskState.running = ground arith in
        rw same (paced_of (pos 2) 0 TaskState.running (omega arith))
    | inr not_two ↦
        let same : t ≡ task_of (pos 3) (pos 0) TaskState.zombie = ground arith in
        rw same (paced_of (pos 3) 0 TaskState.zombie (omega arith))
  ]
]

schedule-Picks_example :
    (s : Sched) × (schedule state ≡ some s) × Picks s.task s.current × AllPaced s.task
schedule-Picks_example = schedule-Picks state table-AllPaced

checked-Checked_example :
    (checked state 0 ≡ table 0)
    × (table 2 ≡ none → checked state 2 ≡ none)
    × ((t : Task)
        → table 2 ≡ some t
        → 1 ≤ 2
        → 2 ≤ last_task
        → (u : Task) × (checked state 2 ≡ some u) × Checked (pos 1000) t u)
checked-Checked_example = checked-Checked state 2

sys_kill-Signalled_example :
    ((sys_kill caller (pos 2) (pos 15) table).0 ≡ pos 0)
    × ((sys_kill caller (pos 2) (pos 15) table).1 0 ≡ table 0)
    × ((j : ℕ) → table j ≡ none → (sys_kill caller (pos 2) (pos 15) table).1 j ≡ none)
    × ((j : ℕ) (t : Task)
        → 1 ≤ j
        → j ≤ last_task
        → table j ≡ some t
        → (u : Task) × ((sys_kill caller (pos 2) (pos 15) table).1 j ≡ some u)
          × Signalled caller 15
              (caller.uid == 0 && caller.euid == 0)
              (is_target caller (pos 2) t)
              t
              u)
sys_kill-Signalled_example = sys_kill-Signalled caller (pos 2) 15 table (omega arith) (omega arith)

waitpid_pass-Finds_example :
    (c : Child) × Finds 1 caller (negsuc 0) table last_task false c
    × (waitpid_pass 1 caller (negsuc 0) false table ≡ Outcome 1 caller (negsuc 0) table false c)
waitpid_pass-Finds_example = waitpid_pass-Finds 1 caller (negsuc 0) table false

-- Task 1 sleeps on an empty queue and is woken, and its call returns.
abbrev no_frames : Waiting
no_frames = record { ts = table; head = none; frame = λ i. none; stamp = λ i. 0; clock = 0 }

abbrev asleep_table : Tasks
asleep_table = set_state (some 1) TaskState.uninterruptible table

sleeps : sleep_on state (some none) ≡ Sleep.asleep none (some 1) asleep_table
unfolding sleep_on enter_queue
sleeps = refl

abbrev asleep_one : Waiting
asleep_one = record {
  ts = asleep_table;
  head = some 1;
  frame = update no_frames.frame 1 (some none);
  stamp = update no_frames.stamp 1 0;
  clock = 0 + 1;
}

abbrev woken_one : Waiting
woken_one = record asleep_one {
  ts = set_state (some 1) TaskState.running asleep_table;
  head = none;
}

abbrev returned_one : Waiting
returned_one = record woken_one { frame = update woken_one.frame 1 none }

one_sleeps : Step no_frames asleep_one
one_sleeps = Step.sleep state none (some 1) asleep_table refl refl sleeps

one_wakes : Step asleep_one woken_one
unfolding wake_up
one_wakes = Step.wake

one_returns : Step woken_one returned_one
unfolding sleep_on_resume
one_returns = Step.resume 1 none _ refl refl refl

sleep_on-lossless_example : returned_one.frame 1 ≡ none
sleep_on-lossless_example =
    sleep_on-lossless {w = no_frames} (λ i. refl)
      (next (next (next here one_sleeps) one_wakes) one_returns) refl
      (λ j tmp e. absurd (ground arith)) 1
