-- ===== src/Sched/Calls/Laws.antt =====
-- kernel/sched.c: the clock tick and the alarm call.
use rhee_creatives_linux_v.Base.{
  ℕ, ◌+◌, ◌-◌, ◌*◌, ◌/◌, ◌^◌, ◌≤◌, ◌<◌, ◌≡◌, refl, ◌∙◌, ap, inl, inr, some, Bool, true, ◌||◌, not,
  if◌then◌else◌, ◌==◌, ltb, update, arith, Bool-cases,
}
use rhee_creatives_linux_v.Base.Int.{
  ℤ, pos, negsuc, ◌+ℤ◌, ◌-ℤ◌, ◌*ℤ◌, ltb_ℤ, wrap32, wrap32_eq_self, pos-+ℤ, pos-*ℤ, pos--ℤ,
}
use rhee_creatives_linux_v.Task.{Task}
use rhee_creatives_linux_v.Sched.{Sched}
use rhee_creatives_linux_v.Sched.Fair.{IsPaced, AllPaced, schedule-Picks}
use rhee_creatives_linux_v.Sched.Calls.{
  hz, charge_tick, spend_tick, slice_left, do_timer, sys_alarm,
}

wrap32-pred :
    (n : ℕ) → n < 2 ^ 31 → wrap32 (pos n -ℤ pos 1) ≡ (if n == 0 then negsuc 0 else pos (n - 1))
unfolding wrap32 ◌-ℤ◌
wrap32-pred n h = ground arith

-- One less, and not below zero.
spend-counter :
    (t : Task) (n : ℕ)
    → t.counter ≡ pos n
    → n < 2 ^ 31
    → ((spend_tick t).counter ≡ pos (n - 1)) × ((spend_tick t).priority ≡ t.priority)
unfolding spend_tick
spend-counter t n e h = (rw (e, wrap32-pred n h) (ground arith), ground arith)

charge_tick_lem :
    (user : Bool) (t : Task)
    → ((charge_tick user t).counter ≡ t.counter) × ((charge_tick user t).priority ≡ t.priority)
unfolding charge_tick
charge_tick_lem user t = ground arith

-- A tick takes one from the slice of a paced task, down to zero.
tick-counter :
    (user : Bool) (t : Task) (v : IsPaced t)
    → ((spend_tick (charge_tick user t)).counter ≡ pos (v.left - 1))
      × ((spend_tick (charge_tick user t)).priority ≡ t.priority)
tick-counter user t v =
    let (counter, priority) = charge_tick_lem user t in
    let (spent, same) =
      spend-counter (charge_tick user t) v.left (counter ∙ v.counter_eq)
        (omega (arith, v.left_le, v.priority_lt)) in
    (spent, same ∙ priority)

tick-IsPaced : (user : Bool) (t : Task) → IsPaced t → IsPaced (spend_tick (charge_tick user t))
tick-IsPaced user t v = record {
  pace = v.pace;
  priority_eq = (tick-counter user t v).1 ∙ v.priority_eq;
  priority_lt = v.priority_lt;
  left = v.left - 1;
  counter_eq = (tick-counter user t v).0;
  left_le = omega (arith, v.left_le);
}

slice_left_lem : (t : Task) (v : IsPaced t) → slice_left t ≡ ltb 1 v.left
unfolding slice_left
slice_left_lem t v =
    rw (v.counter_eq, wrap32-pred v.left (omega (arith, v.left_le, v.priority_lt))) (ground arith)

-- A clock tick on a table within the scheduler's bounds returns and keeps the bounds. If more than
-- one tick was left of the slice of the current task, or the tick came in kernel mode, the same
-- task goes on with its slice one less, and zero at the least.
pub do_timer-AllPaced :
    (user : Bool) (s : Sched) (t : Task) (v : IsPaced t)
    → s.task s.current ≡ some t
    → AllPaced s.task
    → (s' : Sched) × (do_timer user s ≡ some s')
      × AllPaced s'.task
      × ((ltb 1 v.left || not user) ≡ true
          → (s'.current ≡ s.current)
            × (u : Task) × (s'.task s.current ≡ some u)
            × (u.counter ≡ pos (v.left - 1)))
unfolding do_timer
do_timer-AllPaced user s t v here paced = elim (Bool-cases (ltb 1 v.left || not user)) [
  | inl stays ↦ (
    ticked,
    rw (here, do_timer, slice_left_lem t v, stays),
    ticked_paced,
    λ _. (refl, spend_tick (charge_tick user t), ground arith, (tick-counter user t v).0),
  )
  | inr spent ↦
      let (s', e, picks, kept) = schedule-Picks ticked ticked_paced in
      (s', rw (here, do_timer, slice_left_lem t v, spent) e, kept, λ h. cc (h, spent))
]
  where
    ticked : Sched
    ticked = record s { task = update s.task s.current (some (spend_tick (charge_tick user t))) }

    ticked_paced : AllPaced ticked.task
    ticked_paced j u e = elim (Bool-cases (j == s.current)) [
      | inl me ↦
          let same : u ≡ spend_tick (charge_tick user t) = ground arith in
          rw same (tick-IsPaced user t v)
      | inr differs ↦ paced j u (ground arith)
    ]

-- An alarm set for `n` seconds is, `d` ticks later, reported by the next call of `sys_alarm` as the
-- whole seconds that are left, if it has not gone off and the time of its end fits a `long`.
pub sys_alarm-sys_alarm :
    (j d n : ℕ) (m : ℤ) (t : Task)
    → 0 < n
    → j + hz * n < 2 ^ 31
    → d ≤ hz * n
    → (sys_alarm (pos (j + d)) m (sys_alarm (pos j) (pos n) t).1).0 ≡ pos ((hz * n - d) / hz)
unfolding sys_alarm
sys_alarm-sys_alarm j d n m t positive fits early = rw (set_alarm, on, later) (ground arith)
  where
    on : ltb_ℤ (pos 0) (pos n) ≡ true
    on = ground arith

    set_alarm : wrap32 (pos j +ℤ pos hz *ℤ pos n) ≡ pos (j + hz * n)
    set_alarm = rw (pos-*ℤ, pos-+ℤ) (wrap32_eq_self _ (omega arith))

    later : wrap32 (pos (j + hz * n) -ℤ pos (j + d)) ≡ pos (hz * n - d)
    later =
        let left : pos (j + hz * n) -ℤ pos (j + d) ≡ pos (hz * n - d) =
          pos--ℤ (j + hz * n) (j + d) (omega arith) ∙ ap pos (omega arith) in
        rw left (wrap32_eq_self (pos (hz * n - d)) (omega arith))
