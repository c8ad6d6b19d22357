-- ===== src/Task/Table.antt =====
-- Walks over the task table from the last slot down to slot 1.
use mathlib.Core.Option
use rhee_creatives_linux_v.Base.{
  ℕ, zero, suc, ◌≡◌, none, some, ◌&&◌, if◌then◌else◌, leb, update, arith, Option-cases, Bool-cases,
  inl, inr,
}
use rhee_creatives_linux_v.Task.{Task, Tasks}

-- `if (*p) { ... }` at one slot.
abbrev pub at_slot : (Task → Task) → ℕ → Tasks → Tasks
at_slot f i ts = elim (ts i) [ none ↦ ts | some t ↦ update ts i (some (f t)) ]

-- `for (p = &task[k]; p > &FIRST_TASK; --p) if (*p) { ... }`.
pub for_tasks : (Task → Task) → ℕ → Tasks → Tasks
for_tasks f zero ts = ts
for_tasks f (suc k) ts = for_tasks f k (at_slot f (suc k) ts)

-- The walk changes the tasks of the slots 1 to `k`, each by `f`, and nothing else.
pub for_tasks_lem :
    (f : Task → Task) (k : ℕ) (ts : Tasks) (j : ℕ)
    → for_tasks f k ts j ≡ (if leb 1 j && leb j k then Option.map f (ts j) else ts j)
unfolding for_tasks
for_tasks_lem f zero ts j = ground arith
for_tasks_lem f (suc k) ts j = ground (arith, for_tasks_lem f k (at_slot f (suc k) ts) j)

-- A task of the table after the walk comes from the task of the same slot.
pub for_tasks-some :
    (f : Task → Task) (k : ℕ) (ts : Tasks) (j : ℕ) (u : Task)
    → for_tasks f k ts j ≡ some u
    → (t : Task) × (ts j ≡ some t) × (u ≡ (if leb 1 j && leb j k then f t else t))
for_tasks-some f k ts j u e = elim (Option-cases (ts j)) [
  | inl gone ↦ absurd (ground (arith, for_tasks_lem f k ts j))
  | inr (t, here) ↦ (t, here, ground (arith, for_tasks_lem f k ts j))
]

-- What `f` keeps, the walk keeps.
pub for_tasks_inv {ℓ} :
    (P : Task → Type ℓ) (f : Task → Task) (k : ℕ) (ts : Tasks)
    → ((t : Task) → P t → P (f t))
    → ((j : ℕ) (t : Task) → ts j ≡ some t → P t)
    → (j : ℕ) (u : Task) → for_tasks f k ts j ≡ some u
    → P u
for_tasks_inv P f k ts keep all j u e =
    let (t, here, same) = for_tasks-some f k ts j u e in
    elim (Bool-cases (leb 1 j && leb j k)) [
      | inl yes_f ↦ rw (same, yes_f) (keep t (all j t here))
      | inr no_f ↦ rw (same, no_f) (all j t here)
    ]
