-- ===== src/Fork/Pid.antt =====
-- kernel/fork.c: the search for a new pid and for an empty slot.
use rhee_creatives_linux_v.Base.{
  ℕ, zero, suc, ◌+◌, ◌≤◌, ◌<◌, ◌^◌, ◌≡◌, ◌≢◌, refl, ◌∙◌, ap, inl, inr, Option, none, some, Bool,
  true, false, not, ◌&&◌, ◌==◌, arith, Bool-cases, Option-cases, count, count-le, ==_iff,
}
use rhee_creatives_linux_v.Base.Int.{ℤ, pos, ◌+ℤ◌, ltb_ℤ, wrap32, wrap32_eq_self, pos-+ℤ, ==ℤ_iff}
use rhee_creatives_linux_v.Task.{Task, Tasks, nr_tasks}
use rhee_creatives_linux_v.Fork.{
  next_pid, has_pid, pid_used, find_new_pid, find_slot, pid_tries, find_empty_process,
}

next_pid_lem : (n : ℕ) → n + 1 < 2 ^ 31 → next_pid (pos n) ≡ pos (n + 1)
next_pid_lem n h =
    let e : wrap32 (pos n +ℤ pos 1) ≡ pos (n + 1) = rw pos-+ℤ (wrap32_eq_self _ (omega arith)) in
    rw e (ground arith)

-- A pid that is not used is in no slot; a pid that is used is in one.
unused :
    (pid : ℤ) (ts : Tasks) (n : ℕ)
    → pid_used pid ts n ≡ false
    → (j : ℕ) → j < n
    → has_pid pid (ts j) ≡ false
unfolding pid_used
unused pid ts zero h j l = absurd (omega arith)
unused pid ts (suc n) h j l = elim (Bool-cases (j == n)) [
  | inl same ↦ let e : j ≡ n = (==_iff j n).0 same in rw e (ground arith)
  | inr other ↦ unused pid ts n (ground arith) j (ground arith)
]

used :
    (pid : ℤ) (ts : Tasks) (n : ℕ)
    → pid_used pid ts n ≡ true
    → (j : ℕ) × (j < n) × (has_pid pid (ts j) ≡ true)
unfolding pid_used
used pid ts zero h = cc
used pid ts (suc n) h = elim (Bool-cases (has_pid pid (ts n))) [
  | inl hit ↦ (n, omega arith, hit)
  | inr miss ↦ let (j, l, e) = used pid ts n (ground arith) in (j, omega (arith, l), e)
]

-- The pid of the slot is one of the `k` after `last`.
abbrev tried : ℕ → ℕ → Option Task → Bool
tried last k none = false
tried last k (some t) = ltb_ℤ (pos last) t.pid && not (ltb_ℤ (pos (last + k)) t.pid)

module _ (last : ℕ) where
  tried_more : (k : ℕ) (o : Option Task) → tried last k o ≡ true → tried last (k + 1) o ≡ true
  tried_more k none h = cc
  tried_more k (some t) h = ground arith

  tried_new :
      (k : ℕ) (o : Option Task)
      → has_pid (pos (last + k + 1)) o ≡ true
      → (tried last (k + 1) o ≡ true) × (tried last k o ≡ false)
  tried_new k none h = cc
  tried_new k (some t) h =
      let e : t.pid ≡ pos (last + k + 1) = (==ℤ_iff _ _).0 h in
      (rw e (ground arith), rw e (ground arith))

-- A test that holds wherever another does, and elsewhere too, counts more.
module _ {ℓ} {A : Type ℓ} (p q : A → Bool) (t : ℕ → A)
    (more : (a : A) → p a ≡ true → q a ≡ true) where
  count_mono : (n : ℕ) → count p n t ≤ count q n t
  unfolding count
  count_mono zero = omega arith
  count_mono (suc n) = ground (arith, count_mono n, more (t n))

  count-lt : (n j : ℕ) → j < n → q (t j) ≡ true → p (t j) ≡ false → count p n t < count q n t
  unfolding count
  count-lt zero j l a b = absurd (omega arith)
  count-lt (suc n) j l a b = elim (Bool-cases (j == n)) [
    | inl same ↦
        let e : j ≡ n = (==_iff j n).0 same in
        ground (arith, count_mono n, ap (λ i. q (t i)) e, ap (λ i. p (t i)) e)
    | inr other ↦ ground (arith, count-lt n j (ground arith) a b, more (t n))
  ]

-- A new pid among the `fuel` after the `k` that are in use.
abbrev New : ℕ → ℕ → Tasks → Type 0
New from fuel ts =
    (pid : ℕ) × (find_new_pid fuel (pos from) ts ≡ some (pos pid))
    × (from < pid)
    × (pid ≤ from + fuel)
    × (pid_used (pos pid) ts nr_tasks ≡ false)

module _ (last : ℕ) (ts : Tasks) where
  from_eq : (fuel m n : ℕ) → m ≡ n → find_new_pid fuel (pos m) ts ≡ find_new_pid fuel (pos n) ts
  from_eq fuel m n e = ap (λ (n : ℕ). find_new_pid fuel (pos n) ts) e

  search_pid :
      (fuel k : ℕ)
      → last + k + fuel < 2 ^ 31
      → nr_tasks < fuel + count (tried last k) nr_tasks ts
      → New (last + k) fuel ts
  unfolding find_new_pid
  search_pid zero k fits enough = absurd (omega (arith, count-le (tried last k) nr_tasks ts))
  search_pid (suc fuel) k fits enough =
      elim (Bool-cases (pid_used (pos (last + k + 1)) ts nr_tasks)) [
        | inl taken ↦
            let (j, l, e) = used (pos (last + k + 1)) ts nr_tasks taken in
            let (now, before) = tried_new last k (ts j) e in
            let grows =
              count-lt (tried last k) (tried last (k + 1)) ts (tried_more last k) nr_tasks j l now
                before in
            let (pid, found, low, high, free) =
              search_pid fuel (k + 1) (omega (arith, fits)) (omega (arith, grows, enough)) in
            (
              pid,
              rw (find_new_pid, next_pid_lem (last + k) (omega (arith, fits)), taken)
                  (from_eq fuel (last + k + 1) (last + (k + 1)) (omega arith) ∙ found),
              omega (arith, low),
              omega (arith, high),
              free,
            )
        | inr free ↦ (
          last + k + 1,
          rw (find_new_pid, next_pid_lem (last + k) (omega (arith, fits)), free) refl,
          omega arith,
          omega arith,
          free,
        )
      ]

-- The first empty slot of the `n` from `i` on, or that there is none.
abbrev pub FirstEmpty : ℕ → ℕ → Tasks → Option ℕ → Type 0
FirstEmpty n i ts none = (j : ℕ) → i ≤ j → j < i + n → ts j ≢ none
FirstEmpty n i ts (some s) =
    (i ≤ s) × (s < i + n) × (ts s ≡ none) × ((j : ℕ) → i ≤ j → j < s → ts j ≢ none)

full_slot :
    (n i : ℕ) (ts : Tasks) (o : Option ℕ)
    → ts i ≢ none
    → FirstEmpty n (i + 1) ts o
    → FirstEmpty (suc n) i ts o
full_slot n i ts none full rest = λ j l u. elim (Bool-cases (j == i)) [
  | inl same ↦ let e : j ≡ i = (==_iff j i).0 same in rw e full
  | inr other ↦ rest j (ground arith) (omega arith)
]
full_slot n i ts (some s) full (low, high, empty, before) = (
  omega (arith, low),
  omega (arith, high),
  empty,
  λ j l u. elim (Bool-cases (j == i)) [
    | inl same ↦ let e : j ≡ i = (==_iff j i).0 same in rw e full
    | inr other ↦ before j (ground arith) u
  ],
)

find_slot-FirstEmpty : (n i : ℕ) (ts : Tasks) → FirstEmpty n i ts (find_slot n i ts)
unfolding find_slot
find_slot-FirstEmpty zero i ts = λ j l u. absurd (omega (arith, l, u))
find_slot-FirstEmpty (suc n) i ts = elim (Option-cases (ts i)) [
  | inl empty ↦
      rw (find_slot, empty) (omega arith, omega arith, empty, λ j l u. absurd (omega (arith, l, u)))
  | inr (t, here) ↦
      rw (find_slot, here)
        (full_slot n i ts _ (λ e. cc (e, here)) (find_slot-FirstEmpty n (i + 1) ts))
]

-- With a last pid that is not negative and more than 65 below 2 ^ 31, `find_empty_process` ends:
-- its pid is one of the 65 after the last one, no task of the table has it, and the slot is the
-- first empty one of the slots 1 to 63, or there is none.
pub find_empty_process-FirstEmpty :
    (last : ℕ) (ts : Tasks)
    → last + 65 < 2 ^ 31
    → (pid : ℕ) × (slot : Option ℕ) × (find_empty_process (pos last) ts ≡ some (pos pid, slot))
      × (last < pid)
      × (pid ≤ last + 65)
      × ((j : ℕ) → j < nr_tasks → has_pid (pos pid) (ts j) ≡ false)
      × FirstEmpty 63 1 ts slot
unfolding find_empty_process
find_empty_process-FirstEmpty last ts fits =
    let (pid, found, low, high, free) =
      search_pid last ts pid_tries 0 (omega arith) (omega arith) in
    (
      pid,
      find_slot 63 1 ts,
      rw (find_empty_process, from_eq last ts pid_tries last (last + 0) (omega arith) ∙ found) refl,
      omega (arith, low),
      omega (arith, high),
      unused (pos pid) ts nr_tasks free,
      find_slot-FirstEmpty 63 1 ts,
    )
