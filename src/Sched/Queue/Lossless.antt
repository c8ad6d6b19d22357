-- ===== src/Sched/Queue/Lossless.antt =====
-- kernel/sched.c: the sleepers of `sleep_on` under any interleaving. The queue holds one pointer:
-- a sleeper is woken by `wake_up` or by the call of the sleeper that came after it.
use rhee_creatives_linux_v.Base.{
  ℕ, zero, suc, ◌+◌, ◌≤◌, ◌<◌, ◌≡◌, ◌≢◌, sym, ◌∙◌, ap, ◌⊎◌, inl, inr, Option, none, some, false,
  ◌==◌, update, arith, Bool-cases, Option-cases, ==_iff,
}
use rhee_creatives_linux_v.Task.{TaskState, Task, Tasks}
use rhee_creatives_linux_v.Sched.{Sched}
use rhee_creatives_linux_v.Sched.Queue.{
  Sleep, sleep_on, enter_queue, sleep_on_resume, wake_up, set_state,
}

-- One queue and the calls of `sleep_on` that wait at their `schedule()`: `frame i` is the `tmp` of
-- the call of task `i`. `stamp` and `clock` order the calls; the kernel has no such fields.
pub record Waiting : Type 0 where
  pub ts : Tasks
  pub head : Option ℕ
  pub frame : ℕ → Option (Option ℕ)
  pub stamp : ℕ → ℕ
  pub clock : ℕ

-- Task `i` waits in a call and has not been woken.
pub record Asleep (w : Waiting) (i : ℕ) : Type 0 where
  pub tmp : Option ℕ
  pub waits : w.frame i ≡ some tmp
  pub task : Task
  pub here : w.ts i ≡ some task
  pub state : task.state ≡ TaskState.uninterruptible

pub data Step (w : Waiting) : Waiting → Type 0 where
  -- A task that is in no call of this queue calls `sleep_on`.
  sleep :
      (s : Sched) (tmp head : Option ℕ) (ts : Tasks)
      → s.task ≡ w.ts
      → w.frame s.current ≡ none
      → sleep_on s (some w.head) ≡ Sleep.asleep tmp head ts
      → Step w (record {
        ts = ts;
        head = head;
        frame = update w.frame s.current (some tmp);
        stamp = update w.stamp s.current w.clock;
        clock = w.clock + 1;
      })
  -- Someone calls `wake_up`.
  wake : Step w (record w { ts = (wake_up w.head w.ts).1; head = (wake_up w.head w.ts).0 })
  -- The call of a woken task goes on and returns.
  resume :
      (i : ℕ) (tmp : Option ℕ) (t : Task)
      → w.frame i ≡ some tmp
      → w.ts i ≡ some t
      → t.state ≡ TaskState.running
      → Step w (record w { ts = sleep_on_resume tmp w.ts; frame = update w.frame i none })
  -- The rest of the kernel changes the table, and puts no task of this queue to sleep.
  other :
      (ts : Tasks)
      → ((i : ℕ) → Asleep (record w { ts = ts }) i → Asleep w i)
      → Step w (record w { ts = ts })

-- Every sleeper is the head of the queue, or the `tmp` of a later call.
pub record Linked (w : Waiting) : Type 0 where
  pub linked :
      (i : ℕ)
      → Asleep w i
      → (w.head ≡ some i) ⊎ ((j : ℕ) × (w.frame j ≡ some (some i)) × (w.stamp i < w.stamp j))
  pub stamps : (i : ℕ) (tmp : Option ℕ) → w.frame i ≡ some tmp → w.stamp i < w.clock

-- No call waits: the queue at the start.
pub Linked-empty : (w : Waiting) → ((i : ℕ) → w.frame i ≡ none) → Linked w
Linked-empty w empty = record {
  linked = λ i a. cc (empty i, a.waits);
  stamps = λ i tmp e. cc (empty i, e);
}

-- A task that still sleeps after another was made runnable is not that one, and slept before.
still_asleep :
    (o : Option ℕ) (ts : Tasks) (i : ℕ) (t : Task)
    → set_state o TaskState.running ts i ≡ some t
    → t.state ≡ TaskState.uninterruptible
    → (ts i ≡ some t) × (o ≢ some i)
still_asleep none ts i t e st = (e, λ h. cc)
still_asleep (some h) ts i t e st = (ground arith, λ p. ground arith)

wake-Linked :
    {w : Waiting}
    → Linked w
    → Linked (record w { ts = (wake_up w.head w.ts).1; head = (wake_up w.head w.ts).0 })
unfolding wake_up
wake-Linked {w} v = record {
  linked = λ i a.
      let (here, ne) = still_asleep w.head w.ts i a.task a.here a.state in
      elim (v.linked i
        (record { tmp = a.tmp; waits = a.waits; task = a.task; here = here; state = a.state })) [
          | inl first ↦ absurd (ne first)
          | inr later ↦ inr later
        ];
  stamps = v.stamps;
}

resume-Linked :
    {w : Waiting} (i : ℕ) (tmp : Option ℕ)
    → w.frame i ≡ some tmp
    → Linked w
    → Linked (record w { ts = sleep_on_resume tmp w.ts; frame = update w.frame i none })
unfolding sleep_on_resume
resume-Linked {w} i tmp waits v = record {
  linked = λ k a.
      let (here, ne) = still_asleep tmp w.ts k a.task a.here a.state in
      let before : Asleep w k = record {
        tmp = a.tmp;
        waits = ground (arith, a.waits);
        task = a.task;
        here = here;
        state = a.state;
      } in
      elim (v.linked k before) [
        | inl first ↦ inl first
        | inr (j, f, lt) ↦ inr (j, ground (arith, ne, waits, f), lt)
      ];
  stamps = λ k o e. v.stamps k o (ground arith);
}

asleep_inv :
    (s : Sched) (old tmp head : Option ℕ) (ts : Tasks)
    → sleep_on s (some old) ≡ Sleep.asleep tmp head ts
    → (tmp ≡ old)
      × (head ≡ some s.current)
      × (ts ≡ set_state (some s.current) TaskState.uninterruptible s.task)
unfolding sleep_on enter_queue
asleep_inv s old tmp head ts call = ground arith

-- Putting the current task to sleep leaves the other slots.
not_current :
    (s : Sched) {ts : Tasks} {k : ℕ} {t : Task}
    → s.task ≡ ts
    → (k == s.current) ≡ false
    → set_state (some s.current) TaskState.uninterruptible s.task k ≡ some t
    → ts k ≡ some t
not_current s {ts} {k} same differs h = ground (arith, ap (λ (f : Tasks). f k) same)

sleep-Linked :
    {w : Waiting} (s : Sched) (tmp head : Option ℕ) (ts : Tasks)
    → s.task ≡ w.ts
    → w.frame s.current ≡ none
    → sleep_on s (some w.head) ≡ Sleep.asleep tmp head ts
    → Linked w
    → Linked (record {
      ts = ts;
      head = head;
      frame = update w.frame s.current (some tmp);
      stamp = update w.stamp s.current w.clock;
      clock = w.clock + 1;
    })
unfolding sleep_on enter_queue
sleep-Linked {w} s tmp head ts same fresh call v = record {
  linked = λ k a. elim (Bool-cases (k == s.current)) [
    | inl me ↦ inl (asleep.1 ∙ ap some (sym ((==_iff k s.current).0 me)))
    | inr else_k ↦
        let before : Asleep w k = record {
          tmp = a.tmp;
          waits = ground (arith, a.waits, else_k);
          task = a.task;
          here = not_current s same else_k (ap (λ (f : Tasks). f k) (sym asleep.2) ∙ a.here);
          state = a.state;
        } in
        elim (v.linked k before) [
          | inl first ↦ inr (
            s.current,
            ground (arith, asleep.0, first),
            ground (arith, else_k, v.stamps k a.tmp before.waits),
          )
          | inr (j, f, lt) ↦ inr (j, ground (arith, f, fresh), ground (arith, f, fresh, lt, else_k))
        ]
  ];
  stamps = λ k o e. ground (arith, v.stamps k o);
}
  where
    asleep :
        (tmp ≡ w.head)
        × (head ≡ some s.current)
        × (ts ≡ set_state (some s.current) TaskState.uninterruptible s.task)
    asleep = asleep_inv s w.head tmp head ts call

-- Every step keeps the sleepers linked.
pub Step-Linked : {w w' : Waiting} → Step w w' → Linked w → Linked w'
Step-Linked (sleep s tmp head ts same fresh call) v = sleep-Linked s tmp head ts same fresh call v
Step-Linked wake v = wake-Linked v
Step-Linked (resume i tmp t waits here state) v = resume-Linked i tmp waits v
Step-Linked (other ts keep) v = record { linked = λ i a. v.linked i (keep i a); stamps = v.stamps }

pub data Reach (w : Waiting) : Waiting → Type 0 where
  here : Reach w w
  next : {u v : Waiting} → Reach w u → Step u v → Reach w v

Reach-Linked : {w w' : Waiting} → Linked w → Reach w w' → Linked w'
Reach-Linked v here = v
Reach-Linked v (next r st) = Step-Linked st (Reach-Linked v r)

-- With an empty queue, a sleeper rests on a later sleeper, and so on up to the clock.
no_sleeper :
    (fuel : ℕ) {w : Waiting} (i : ℕ)
    → Linked w
    → w.head ≡ none
    → ((j : ℕ) (tmp : Option ℕ) → w.frame j ≡ some tmp → Asleep w j)
    → Asleep w i
    → w.clock ≤ w.stamp i + fuel
    → ⊥
no_sleeper zero i v empty all a h = omega (arith, v.stamps i a.tmp a.waits)
no_sleeper (suc fuel) i v empty all a h = elim (v.linked i a) [
  | inl first ↦ cc (empty, first)
  | inr (j, f, lt) ↦ no_sleeper fuel j v empty all (all j (some i) f) (omega (arith, lt))
]

-- From a state in which no task waits, after any calls of `sleep_on` and `wake_up` and any returns
-- of woken calls, interleaved with changes of the table that put none of the queue's tasks to
-- sleep: when the queue is empty and each call that still waits is that of a sleeping task, no
-- call waits. So a wake-up reaches, through the returns of the calls, every sleeper.
pub sleep_on-lossless :
    {w w' : Waiting}
    → ((i : ℕ) → w.frame i ≡ none)
    → Reach w w'
    → w'.head ≡ none
    → ((j : ℕ) (tmp : Option ℕ) → w'.frame j ≡ some tmp → Asleep w' j)
    → (i : ℕ) → w'.frame i ≡ none
sleep_on-lossless {w} {w'} start r empty all i = elim (Option-cases (w'.frame i)) [
  | inl gone ↦ gone
  | inr (tmp, waits) ↦ absurd (
      no_sleeper w'.clock i (Reach-Linked (Linked-empty w start) r) empty all (all i tmp waits)
        (omega arith))
]
