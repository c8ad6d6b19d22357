-- ===== src/Exit/Wait.antt =====
-- kernel/exit.c: which child `sys_waitpid` reaps, and when it sleeps or gives up.
use rhee_creatives_linux_v.Base.{
  ℕ, zero, suc, ◌≤◌, ◌<◌, ◌≡◌, ◌≢◌, refl, ◌∙◌, ◌⊎◌, inl, inr, none, some, Bool, true, false, ◌||◌,
  not, if◌then◌else◌, ◌==◌, leb, update, update_ne, up_to_suc, Bool-cases, Option-cases, arith,
}
use rhee_creatives_linux_v.Base.Int.{ℤ, ◌+ℤ◌, wrap32}
use rhee_creatives_linux_v.Task.{Task, Tasks, is_zombie, last_task, nr_tasks}
use rhee_creatives_linux_v.Exit.{
  is_waited, Child, dead, living, find_child, Waited, reap, release, waitpid_pass,
}

release-some :
    (i : ℕ) (ts : Tasks) (t : Task)
    → 1 ≤ i
    → i ≤ last_task
    → ts i ≡ some t
    → release i ts ≡ some (update ts i none)
unfolding release
release-some i ts t low high here =
    let inside : (i == 0 || leb nr_tasks i) ≡ false = ground arith in rw (inside, here)

module _ (current : ℕ) (me : Task) (pid : ℤ) (ts : Tasks) where
  -- The task in slot `j` is a child of the caller that the call asks for.
  pub record IsChild (j : ℕ) (t : Task) : Type 0 where
    pub here : ts j ≡ some t
    pub apart : j ≢ current
    pub waited : is_waited me pid t ≡ true

  abbrev pub NoneDead : ℕ → ℕ → Type 0
  NoneDead i k = (j : ℕ) → j ≤ k → (t : Task) → i < j → IsChild j t → is_zombie t.state ≡ false

  -- What a walk down from slot `k` finds, from a flag on.
  abbrev pub Finds : ℕ → Bool → Child → Type 0
  Finds k flag (dead i t) =
      (1 ≤ i) × (i ≤ k) × IsChild i t × (is_zombie t.state ≡ true) × NoneDead i k
  Finds k flag (living true) =
      NoneDead 0 k × ((flag ≡ true) ⊎ ((j : ℕ) × (t : Task) × (1 ≤ j) × (j ≤ k) × IsChild j t))
  Finds k flag (living false) =
      (flag ≡ false) × ((j : ℕ) → j ≤ k → (t : Task) → 1 ≤ j → ¬ (IsChild j t))

  pass_over :
      (k : ℕ) (flag : Bool) (c : Child)
      → ((t : Task) → ¬ (IsChild (suc k) t))
      → Finds k flag c
      → Finds (suc k) flag c
  pass_over k flag (dead i t) no_child (low, high, child, z, none_above) =
      (low, omega (arith, high), child, z, up_to_suc _ (λ u _ c. absurd (no_child u c)) none_above)
  pass_over k flag (living true) no_child (none_dead, inl f) =
      (up_to_suc _ (λ u _ c. absurd (no_child u c)) none_dead, inl f)
  pass_over k flag (living true) no_child (none_dead, inr (j, t, low, high, child)) = (
    up_to_suc _ (λ u _ c. absurd (no_child u c)) none_dead,
    inr (j, t, low, omega (arith, high), child),
  )
  pass_over k flag (living false) no_child (f, none_here) =
      (f, up_to_suc _ (λ u _ c. no_child u c) none_here)

  same_alive :
      {k : ℕ} (t v : Task)
      → IsChild k t
      → IsChild k v
      → is_zombie t.state ≡ false
      → is_zombie v.state ≡ false
  same_alive t v a b alive = let same : v ≡ t = cc (a.here, b.here) in rw same alive

  note_child :
      (k : ℕ) (flag : Bool) (c : Child) (t : Task)
      → IsChild (suc k) t
      → is_zombie t.state ≡ false
      → Finds k true c
      → Finds (suc k) flag c
  note_child k flag (dead i u) t here alive (low, high, child, z, none_above) = (
    low,
    omega (arith, high),
    child,
    z,
    up_to_suc _ (λ v _ c. same_alive t v here c alive) none_above,
  )
  note_child k flag (living true) t here alive (none_dead, _) = (
    up_to_suc _ (λ v _ c. same_alive t v here c alive) none_dead,
    inr (suc k, t, omega arith, omega arith, here),
  )
  note_child k flag (living false) t here alive (f, none_here) = cc f

  skipped :
      {k : ℕ} (t u : Task)
      → ts k ≡ some t
      → IsChild k u
      → (k == current || not (is_waited me pid t)) ≡ true
      → ⊥
  skipped {k} t u here c out =
      let same : t ≡ u = cc (here, c.here) in
      let w : is_waited me pid t ≡ true = rw same c.waited in
      let differs : (k == current) ≡ false = ground (arith, c.apart) in cc (rw (differs, w) at out)

  pub find_child-Finds : (k : ℕ) (flag : Bool) → Finds k flag (find_child current me pid ts k flag)
  unfolding find_child
  find_child-Finds zero true = (λ j h t lt c. absurd (omega (arith, lt, h)), inl refl)
  find_child-Finds zero false = (refl, λ j h t low c. absurd (omega (arith, low, h)))
  find_child-Finds (suc k) flag = elim (Option-cases (ts (suc k))) [
    | inl gone ↦
        rw (gone, find_child)
          (pass_over k flag _ (λ t c. cc (c.here, gone)) (find_child-Finds k flag))
    | inr (t, here) ↦ elim (Bool-cases (suc k == current || not (is_waited me pid t))) [
      | inl out ↦
          rw (here, find_child, out)
            (pass_over k flag _ (λ u c. skipped t u here c out) (find_child-Finds k flag))
      | inr child ↦
          let is : IsChild (suc k) t = record {
            here = here;
            apart = ground (arith, child);
            waited = ground (arith, child);
          } in
          elim (Bool-cases (is_zombie t.state)) [
            | inl z ↦
                rw (here, find_child, child, z)
                  (omega arith, omega arith, is, z, λ j h u lt c. absurd (omega (arith, lt, h)))
            | inr alive ↦
                rw (here, find_child, child, alive)
                  (note_child k flag _ t is alive (find_child-Finds k true))
          ]
    ]
  ]

  -- The caller's task once it has the times of a child.
  abbrev pub paid : Task → Task
  paid t = record me {
    cutime = wrap32 (me.cutime +ℤ t.utime);
    cstime = wrap32 (me.cstime +ℤ t.stime);
  }

  abbrev pub Outcome : Bool → Child → Waited
  Outcome wnohang (dead i t) =
      Waited.reaped t.pid t.exit_code (update (update ts current (some (paid t))) i none)
  Outcome wnohang (living true) = if wnohang then Waited.nothing else Waited.pauses
  Outcome wnohang (living false) = Waited.no_child

  waitpid_Outcome :
      (wnohang : Bool) (c : Child)
      → Finds last_task false c
      → find_child current me pid ts last_task false ≡ c
      → waitpid_pass current me pid wnohang ts ≡ Outcome wnohang c
  unfolding waitpid_pass reap
  waitpid_Outcome wnohang (dead i t) (low, high, child, _, _) e =
      let kept : update ts current (some (paid t)) i ≡ some t =
        update_ne ts current i (some (paid t)) child.apart ∙ child.here in
      rw (e, waitpid_pass, reap, release-some i (update ts current (some (paid t))) t low high kept)
  waitpid_Outcome wnohang (living true) f e = rw (e, waitpid_pass)
  waitpid_Outcome wnohang (living false) f e = rw (e, waitpid_pass)

  -- One pass of `sys_waitpid`: if a child that the call asks for is dead, the one in the highest
  -- slot of 1 to 63 is reaped: its pid and exit code are returned, its times are added to the
  -- caller's, its slot is emptied and nothing else of the table changes. If there are such
  -- children and none is dead, the call returns 0 under WNOHANG and sleeps otherwise. If there is
  -- no such child, it returns -ECHILD.
  pub waitpid_pass-Finds :
      (wnohang : Bool)
      → (c : Child) × Finds last_task false c
        × (waitpid_pass current me pid wnohang ts ≡ Outcome wnohang c)
  waitpid_pass-Finds wnohang =
      let found = find_child-Finds last_task false in
      (find_child current me pid ts last_task false, found, waitpid_Outcome wnohang _ found refl)
