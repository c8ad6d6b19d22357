-- ===== src/Sys/Groups.antt =====
-- kernel/sys.c: process groups and sessions.
use rhee_creatives_linux_v.Base.{
  ℕ, zero, suc, ◌+◌, ◌≤◌, ◌<◌, ◌≡◌, ◌≢◌, refl, inl, inr, Option, none, some, false, ◌||◌, not,
  if◌then◌else◌, ◌==◌, arith, Bool-cases, Option-cases, ◌∙◌, ap, update, subst, ==_iff,
}
use rhee_creatives_linux_v.Base.Int.{ℤ, pos, ◌==ℤ◌, ==ℤ_iff}
use rhee_creatives_linux_v.Task.{Task, Tasks, nr_tasks}
use rhee_creatives_linux_v.Sys.{eperm, esrch, find_pid, sys_setpgid}

-- The first of the `n` slots from `i` on whose task has the pid, or that there is none.
abbrev pub First : ℤ → Tasks → ℕ → ℕ → Option (ℕ × Task) → Type 0
First pid ts n i none = (j : ℕ) (t : Task) → i ≤ j → j < i + n → ts j ≡ some t → t.pid ≢ pid
First pid ts n i (some (k, t)) =
    (ts k ≡ some t)
    × (t.pid ≡ pid)
    × (i ≤ k)
    × (k < i + n)
    × ((j : ℕ) (u : Task) → i ≤ j → j < k → ts j ≡ some u → u.pid ≢ pid)

from_next : {P : ℕ → Type 0} {i : ℕ} → P i → ((j : ℕ) → i + 1 ≤ j → P j) → (j : ℕ) → i ≤ j → P j
from_next {P} {i} now later j h = elim (Bool-cases (i == j)) [
  | inl same ↦ subst P ((==_iff i j).0 same) now
  | inr differs ↦ later j (ground arith)
]

skip_slot :
    (pid : ℤ) (ts : Tasks) (n i : ℕ) (o : Option (ℕ × Task))
    → ((t : Task) → ts i ≡ some t → t.pid ≢ pid)
    → First pid ts n (i + 1) o
    → First pid ts (suc n) i o
skip_slot pid ts n i none here later = λ j t low high at_j.
    from_next {P = λ j. j < i + suc n → ts j ≡ some t → t.pid ≢ pid} (λ _ e. here t e)
      (λ j low high e. later j t low (omega (arith, high)) e) j low high at_j
skip_slot pid ts n i (some (k, t)) here (at_k, same, low, high, before) = (
  at_k,
  same,
  omega (arith, low),
  omega (arith, high),
  λ j u low_j high_j at_j.
      from_next {P = λ j. j < k → ts j ≡ some u → u.pid ≢ pid} (λ _ e. here u e)
        (λ j l h e. before j u l h e) j low_j high_j at_j,
)

missed : (t u : Task) (pid : ℤ) → (t.pid ==ℤ pid) ≡ false → t ≡ u → u.pid ≢ pid
missed t u pid miss same p = cc (miss, (==ℤ_iff t.pid pid).1 (ap (λ (v : Task). v.pid) same ∙ p))

find_pid-First : (pid : ℤ) (ts : Tasks) (n i : ℕ) → First pid ts n i (find_pid pid ts n i)
unfolding find_pid
find_pid-First pid ts zero i = λ j t low high here. absurd (omega (arith, low, high))
find_pid-First pid ts (suc n) i = elim (Option-cases (ts i)) [
  | inl gone ↦
      rw (gone, find_pid)
        (skip_slot pid ts n i _ (λ t e. cc (e, gone)) (find_pid-First pid ts n (i + 1)))
  | inr (t, here) ↦ elim (Bool-cases (t.pid ==ℤ pid)) [
    | inl hit ↦
        rw (here, find_pid, hit)
          (
            here,
            (==ℤ_iff _ _).0 hit,
            omega arith,
            omega arith,
            λ j u low high. absurd (omega (arith, low, high)),
          )
    | inr miss ↦
        rw (here, find_pid, miss)
          (skip_slot pid ts n i _ (λ u e p. missed t u pid miss (cc (here, e)) p)
            (find_pid-First pid ts n (i + 1)))
  ]
]

-- What `sys_setpgid` does, by the first task of the table with the pid (the caller's own for a
-- pid of 0): with no such task it returns -ESRCH; if that task leads its session or belongs to
-- another session it returns -EPERM, and in both cases changes nothing; else it sets that task's
-- process group, to the pid for a group of 0, returns 0 and changes nothing else.
pub sys_setpgid-First :
    (pid pgid : ℤ) (me : Task) (ts : Tasks)
    → let target = if pid ==ℤ pos 0 then me.pid else pid in
      (found : Option (ℕ × Task)) × First target ts nr_tasks 0 found
      × (sys_setpgid pid pgid me ts ≡ (elim found [
        | none ↦ (esrch, ts)
        | some (k, t) ↦ if t.leader || not (t.session ==ℤ me.session) then (eperm, ts) else (
          pos 0,
          update ts k (some (record t { pgrp = if pgid ==ℤ pos 0 then target else pgid })),
        )
      ]))
unfolding sys_setpgid
sys_setpgid-First pid pgid me ts = (_, find_pid-First _ ts nr_tasks 0, refl)
