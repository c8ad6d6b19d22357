-- ===== src/Sched/Fair.antt =====
-- kernel/sched.c: the loop of `schedule` and its choice, under the bounds of the time slices.
use rhee_creatives_linux_v.Base.{
  ℕ, zero, suc, ◌+◌, ◌*◌, ◌/◌, ◌^◌, ◌≤◌, ◌<◌, ◌≡◌, ◌≢◌, refl, ◌⊎◌, inl, inr, some, true, Bool-cases,
  arith, leb, ◌&&◌, sym, ◌∙◌, ap,
}
use rhee_creatives_linux_v.Base.Int.{
  ℤ, pos, negsuc, pos_part, neg_part, ◌≤ℤ◌, ◌<ℤ◌, ◌==ℤ◌, wrap32_eq_self, ==ℤ_iff, pos-+ℤ,
}
use rhee_creatives_linux_v.Task.{Task, Tasks, last_task}
use rhee_creatives_linux_v.Task.Table.{for_tasks, for_tasks_inv, for_tasks-some}
use rhee_creatives_linux_v.Sched.{
  Sched, scan, recharge, choose, schedule, check_task, ring_alarm, wake_signalled,
}
use rhee_creatives_linux_v.Sched.Pick.{Runs, Best, Scanned, scan-Scanned}

-- The time slice is at most twice the priority, which is positive.
pub record IsPaced (t : Task) : Type 0 where
  pub pace : ℕ
  pub priority_eq : t.priority ≡ pos (suc pace)
  pub priority_lt : suc pace < 2 ^ 30
  pub left : ℕ
  pub counter_eq : t.counter ≡ pos left
  pub left_le : left ≤ 2 * suc pace

abbrev pub AllPaced : Tasks → Type 0
AllPaced ts = (j : ℕ) (t : Task) → ts j ≡ some t → IsPaced t

recharged-counter :
    (t : Task) (v : IsPaced t) → (recharge t).counter ≡ pos (v.left / 2 + suc v.pace)
unfolding recharge
recharged-counter t v =
    rw (v.counter_eq, v.priority_eq, pos-+ℤ)
      (wrap32_eq_self _ (omega (arith, v.priority_lt, v.left_le)))

recharge-IsPaced : (t : Task) → IsPaced t → IsPaced (recharge t)
recharge-IsPaced t v = record {
  pace = v.pace;
  priority_eq = unfold recharge in v.priority_eq;
  priority_lt = v.priority_lt;
  left = v.left / 2 + suc v.pace;
  counter_eq = recharged-counter t v;
  left_le = omega (arith, v.left_le);
}

check_task-IsPaced : (now : ℤ) (t : Task) → IsPaced t → IsPaced (check_task now t)
unfolding check_task ring_alarm wake_signalled
check_task-IsPaced now t v = record {
  pace = v.pace;
  priority_eq = ground (arith, v.priority_eq);
  priority_lt = v.priority_lt;
  left = v.left;
  counter_eq = ground (arith, v.counter_eq);
  left_le = v.left_le;
}

-- The slot that the scan settles on: 0 if no task is runnable, or else the best, with time left.
abbrev pub Picks : Tasks → ℕ → Type 0
Picks ts next =
    ((next ≡ 0) × ((j : ℕ) (t : Task) → 1 ≤ j → j ≤ last_task → ¬ (Runs ts j t)))
    ⊎ ((c : ℤ) × (pos 1 ≤ℤ c) × Best ts last_task c next)

choose-stop :
    (fuel : ℕ) (ts : Tasks)
    → (scan ts last_task (negsuc 0) 0).0 ≢ pos 0
    → choose (suc fuel) ts ≡ some ((scan ts last_task (negsuc 0) 0).1, ts)
unfolding choose
choose-stop fuel ts live = ground (arith, ==ℤ_iff (scan ts last_task (negsuc 0) 0).0 (pos 0))

choose-again :
    (fuel : ℕ) (ts : Tasks)
    → (scan ts last_task (negsuc 0) 0).0 ≡ pos 0
    → choose (suc fuel) ts ≡ choose fuel (for_tasks recharge last_task ts)
unfolding choose
choose-again fuel ts spent = ground (arith, ==ℤ_iff (scan ts last_task (negsuc 0) 0).0 (pos 0))

-- A scan that finds no zero slice has made the choice.
Scanned-Picks :
    (ts : Tasks) (r : ℤ × ℕ)
    → r.0 ≢ pos 0
    → Scanned ts last_task (negsuc 0) 0 r
    → AllPaced ts
    → Picks ts r.1
Scanned-Picks ts r live (inl (e, f, low)) paced = inl (
  f,
  λ j t above le run.
      let v = paced j t run.here in
      absurd
        (omega (arith, low j le t above run, ap pos_part v.counter_eq, ap neg_part v.counter_eq)),
)
Scanned-Picks ts (c, next) live (inr (lt, best)) paced = inr (c, positive c live lt, best)
  where
    positive : (c : ℤ) → c ≢ pos 0 → negsuc 0 <ℤ c → pos 1 ≤ℤ c
    positive (pos zero) h lt = absurd (h refl)
    positive (pos (suc n)) h lt = omega arith
    positive (negsuc n) h lt = absurd (omega (arith, lt))

-- The loop ends with a choice, and the table keeps its bounds.
abbrev Settles : ℕ → Tasks → Type 0
Settles fuel ts =
    (next : ℕ) × (ts' : Tasks) × (choose fuel ts ≡ some (next, ts')) × Picks ts' next × AllPaced ts'

settle :
    (fuel : ℕ) (ts : Tasks)
    → AllPaced ts
    → (scan ts last_task (negsuc 0) 0).0 ≢ pos 0
    → Settles (suc fuel) ts
settle fuel ts paced live = (
  _,
  ts,
  choose-stop fuel ts live,
  Scanned-Picks ts _ live (scan-Scanned ts last_task (negsuc 0) 0) paced,
  paced,
)

-- After a recharge no slice is zero, so the best one is not.
charged-scan :
    (ts : Tasks)
    → AllPaced ts
    → (r : ℤ × ℕ) → Scanned (for_tasks recharge last_task ts) last_task (negsuc 0) 0 r
    → r.0 ≢ pos 0
charged-scan ts paced r (inl (e, f, low)) z = cc (sym e ∙ z)
charged-scan ts paced (c, next) (inr (lt, best)) z =
    let (t, here, same) = for_tasks-some recharge last_task ts next best.chosen best.runs.here in
    let v = paced next t here in
    let inside : (leb 1 next && leb next last_task) ≡ true = ground (arith, best.slot) in
    let counter : pos (v.left / 2 + suc v.pace) ≡ best.chosen.counter =
      rw (same, inside) (sym (recharged-counter t v)) in
    absurd (omega (arith, ap pos_part (counter ∙ best.slice ∙ z)))

choose-Settles : (fuel : ℕ) (ts : Tasks) → AllPaced ts → Settles (suc (suc fuel)) ts
choose-Settles fuel ts paced = elim (Bool-cases ((scan ts last_task (negsuc 0) 0).0 ==ℤ pos 0)) [
  | inl spent ↦ rw (choose-again (suc fuel) ts ((==ℤ_iff _ _).0 spent)) (
      settle fuel (for_tasks recharge last_task ts) charged
        (charged-scan ts paced _ (scan-Scanned _ last_task (negsuc 0) 0)))
  | inr left ↦ settle (suc fuel) ts paced (λ e. cc (left, (==ℤ_iff _ _).1 e))
]
  where
    charged : AllPaced (for_tasks recharge last_task ts)
    charged = for_tasks_inv IsPaced recharge last_task ts recharge-IsPaced paced

-- The tasks of phase 1: alarms rung and sleepers with signals woken.
abbrev pub checked : Sched → Tasks
checked s = for_tasks (check_task s.jiffies) last_task s.task

-- When every task has a positive priority below 2 ^ 30 and a slice of at most twice that,
-- `schedule` ends. The task that it makes current is slot 0 if no task of the slots 1 to 63 is
-- runnable after the check of alarms and signals, and otherwise the runnable task with the largest
-- slice, the highest slot among equals, whose slice is positive. All bounds are kept.
pub schedule-Picks :
    (s : Sched)
    → AllPaced s.task
    → (s' : Sched) × (schedule s ≡ some s') × Picks s'.task s'.current × AllPaced s'.task
unfolding schedule
schedule-Picks s paced =
    let (next, ts, e, picks, kept) =
      choose-Settles 0 (checked s)
        (for_tasks_inv IsPaced _ last_task s.task (check_task-IsPaced s.jiffies) paced) in
    (record s { task = ts; current = next }, rw (e, schedule), picks, kept)
