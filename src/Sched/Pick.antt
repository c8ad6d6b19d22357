-- ===== src/Sched/Pick.antt =====
-- kernel/sched.c: the scan of `schedule` for the largest time slice.
use rhee_creatives_linux_v.Base.{
  up_to_suc, sym, ℕ, zero, suc, ◌≤◌, ◌<◌, ◌≡◌, refl, ◌⊎◌, inl, inr, Option, none, some, true, false,
  Bool-cases, arith,
}
use rhee_creatives_linux_v.Base.Int.{ℤ, ◌≤ℤ◌, ◌<ℤ◌}
use rhee_creatives_linux_v.Task.{Task, TaskState, Tasks}
use rhee_creatives_linux_v.Sched.{better, scan}

-- The task in slot `i` is runnable and its time slice is `c`.
pub record Runs (ts : Tasks) (i : ℕ) (t : Task) : Type 0 where
  pub here : ts i ≡ some t
  pub runnable : t.state ≡ TaskState.running

-- No runnable task of the slots 1 to `k` has a slice above `c`.
abbrev pub NoneAbove : Tasks → ℕ → ℤ → Type 0
NoneAbove ts k c = (j : ℕ) → j ≤ k → (t : Task) → 1 ≤ j → Runs ts j t → t.counter ≤ℤ c

-- Among the slots 1 to `k`, `next` has the largest slice `c`, and is the last slot that has it.
pub record Best (ts : Tasks) (k : ℕ) (c : ℤ) (next : ℕ) : Type 0 where
  pub slot : (1 ≤ next) × (next ≤ k)
  pub chosen : Task
  pub runs : Runs ts next chosen
  pub slice : chosen.counter ≡ c
  pub most : NoneAbove ts k c
  pub last : (j : ℕ) → j ≤ k → (t : Task) → next < j → Runs ts j t → t.counter <ℤ c

-- What a scan of the slots 1 to `k` returns, from `c` and `next` on.
abbrev pub Scanned : Tasks → ℕ → ℤ → ℕ → ℤ × ℕ → Type 0
Scanned ts k c next (c', next') =
    ((c' ≡ c) × (next' ≡ next) × NoneAbove ts k c) ⊎ ((c <ℤ c') × Best ts k c' next')

unique_task : {ts : Tasks} {i : ℕ} {t u : Task} → Runs ts i t → Runs ts i u → t ≡ u
unique_task {t} {u} r q = cc (r.here, q.here)

module _ {ts : Tasks} {k : ℕ} {c : ℤ} where
  -- Nothing better in slot `suc k`: the scan goes on as it was.
  skip_slot :
      {next : ℕ} (r : ℤ × ℕ)
      → ((t : Task) → Runs ts (suc k) t → t.counter ≤ℤ c)
      → Scanned ts k c next r
      → Scanned ts (suc k) c next r
  skip_slot (c', n') low (inl (e, f, none_above)) =
      inl (e, f, up_to_suc _ (λ t _. low t) none_above)
  skip_slot (c', n') low (inr (lt, best)) = inr (
    lt,
    record {
      slot = omega (arith, best.slot);
      chosen = best.chosen;
      runs = best.runs;
      slice = best.slice;
      most = up_to_suc _ (λ t _ r. omega (arith, low t r)) best.most;
      last = up_to_suc _ (λ t _ r. omega (arith, low t r)) best.last;
    },
  )

  -- A better task in slot `suc k`: the scan goes on from it.
  take_slot :
      (next : ℕ) (t : Task) (r : ℤ × ℕ)
      → Runs ts (suc k) t
      → c <ℤ t.counter
      → Scanned ts k t.counter (suc k) r
      → Scanned ts (suc k) c next r
  take_slot next t (c', n') run lt (inl (e, f, none_above)) = inr (
    rw e lt,
    record {
      slot = omega (arith, f);
      chosen = t;
      runs = rw f run;
      slice = sym e;
      most = rw e (up_to_suc _ (λ u _ r. rw (unique_task r run) (omega arith)) none_above);
      last = λ j h u above r. absurd (omega (arith, f, above, h));
    },
  )
  take_slot next t (c', n') run lt (inr (lt', best)) = inr (
    omega (arith, lt, lt'),
    record {
      slot = omega (arith, best.slot);
      chosen = best.chosen;
      runs = best.runs;
      slice = best.slice;
      most = up_to_suc _ (λ u _ r. rw (unique_task r run) (omega (arith, lt'))) best.most;
      last = up_to_suc _ (λ u _ r. rw (unique_task r run) lt') best.last;
    },
  )

better-true :
    (o : Option Task) (c : ℤ)
    → better o c ≡ true
    → (t : Task) × (o ≡ some t) × (t.state ≡ TaskState.running) × (c <ℤ t.counter)
unfolding better
better-true none c h = cc
better-true (some t) c h = (t, refl, ground arith, ground arith)

better-false :
    (o : Option Task) (c : ℤ) (t : Task)
    → o ≡ some t
    → t.state ≡ TaskState.running
    → better o c ≡ false
    → t.counter ≤ℤ c
unfolding better
better-false o c t e r h = ground arith

-- The scan of `schedule` over the slots 1 to `k`.
pub scan-Scanned : (ts : Tasks) (k : ℕ) (c : ℤ) (next : ℕ) → Scanned ts k c next (scan ts k c next)
unfolding scan
scan-Scanned ts zero c next = inl (refl, refl, λ j h t pos. absurd (omega arith))
scan-Scanned ts (suc k) c next = elim (Bool-cases (better (ts (suc k)) c)) [
  | inl found ↦
      let (t, here, runnable, lt) = better-true (ts (suc k)) c found in
      rw (found, here)
        (take_slot next t _ (record { here = here; runnable = runnable }) lt
          (scan-Scanned ts k t.counter (suc k)))
  | inr low ↦ rw low (
      skip_slot _ (λ t r. better-false (ts (suc k)) c t r.here r.runnable low)
        (scan-Scanned ts k c next))
]
