-- ===== src/Files/Dup.antt =====
-- fs/fcntl.c: the descriptor that `dupfd` gives.
use rhee_creatives_linux_v.Base.{
  ℕ, zero, suc, ◌+◌, ◌-◌, ◌≤◌, ◌<◌, ◌≡◌, ◌≢◌, refl, sym, ap, subst, ◌⊎◌, inl, inr, Option, none,
  some, true, false, ◌==◌, leb, arith, Bool-cases, Option-cases, ==_iff, update_ne, update_self,
}
use rhee_creatives_linux_v.Base.Int.{ℤ, pos}
use rhee_creatives_linux_v.Base.Bits.{bit, bit-without_bit}
use rhee_creatives_linux_v.Files.{Files, ebadf, einval, emfile, file_of, free_fd, share_file, dupfd}

-- The first free descriptor, by its own description.
pub record FirstFree (filp : ℕ → Option ℕ) (from free : ℕ) : Type 0 where
  pub above : from ≤ free
  pub below : free < 20
  pub is_free : filp free ≡ none
  pub taken : (j : ℕ) → from ≤ j → j < free → filp j ≢ none

pub free_fd-FirstFree :
    (n from : ℕ) (filp : ℕ → Option ℕ) {free : ℕ}
    → n + from ≡ 20
    → free_fd n from filp ≡ some free
    → FirstFree filp from free
unfolding free_fd
free_fd-FirstFree zero from filp size found = cc
free_fd-FirstFree (suc n) from filp {free} size found = elim (Option-cases (filp from)) [
  | inl gone ↦
      let e : from ≡ free = ground (arith, gone) in
      record {
        above = omega arith;
        below = omega arith;
        is_free = cc;
        taken = λ j l u. absurd (omega arith);
      }
  | inr (g, used) ↦
      let rest : FirstFree filp (from + 1) free =
        free_fd-FirstFree n (from + 1) filp (omega arith) (ground (arith, used)) in
      record {
        above = omega (arith, rest.above);
        below = rest.below;
        is_free = rest.is_free;
        taken = λ j l u. elim (Bool-cases (j == from)) [
          | inl same ↦ λ e. cc (used, e, (==_iff j from).0 same)
          | inr other ↦ rest.taken j (ground arith) u
        ];
      }
]

free_fd-none :
    (n from : ℕ) (filp : ℕ → Option ℕ)
    → free_fd n from filp ≡ none
    → (j : ℕ) → from ≤ j
    → j < n + from
    → filp j ≢ none
unfolding free_fd
free_fd-none zero from filp found j l u = absurd (omega arith)
free_fd-none (suc n) from filp found j l u = elim (Option-cases (filp from)) [
  | inl gone ↦ absurd (ground (arith, gone))
  | inr (g, used) ↦ elim (Bool-cases (j == from)) [
    | inl same ↦ λ e. cc (used, e, (==_iff j from).0 same)
    | inr other ↦
        free_fd-none n (from + 1) filp (ground (arith, used)) j (ground arith) (omega arith)
  ]
]

-- What `dupfd` may do: the three errors change nothing; else the lowest free descriptor from `arg`
-- on names the file, is not closed on exec, and the other descriptors are as before.
pub data Dupped (fd arg : ℕ) (s : Files) : ℤ × Files → Type 0 where
  bad_file : file_of fd s ≡ none → Dupped fd arg s (ebadf, s)
  bad_arg : (f : ℕ) → file_of fd s ≡ some f → 20 ≤ arg → Dupped fd arg s (einval, s)
  full :
      (f : ℕ)
      → file_of fd s ≡ some f
      → ((j : ℕ) → arg ≤ j → j < 20 → s.filp j ≢ none)
      → Dupped fd arg s (emfile, s)
  dupped :
      (f free : ℕ) (s' : Files)
      → file_of fd s ≡ some f
      → FirstFree s.filp arg free
      → s'.filp free ≡ some f
      → ((j : ℕ) → j ≢ free → s'.filp j ≡ s.filp j)
      → bit s'.close_on_exec free ≡ false
      → Dupped fd arg s (pos free, s')

share_file-bit : (fd f : ℕ) (s : Files) → fd < 20 → bit (share_file fd f s).close_on_exec fd ≡ false
unfolding share_file
share_file-bit fd f s h =
    ground (arith, bit-without_bit 32 s.close_on_exec fd fd (omega arith) (omega arith))

share_file_self : (fd f : ℕ) (s : Files) → (share_file fd f s).filp fd ≡ some f
unfolding share_file
share_file_self fd f s = update_self s.filp fd (some f)

share_file-other : (fd f : ℕ) (s : Files) (j : ℕ) → j ≢ fd → (share_file fd f s).filp j ≡ s.filp j
unfolding share_file
share_file-other fd f s j h = update_ne s.filp fd j (some f) h

-- The four ways, as equations.
module _ (fd arg : ℕ) (s : Files) where
  dupfd-bad_file : file_of fd s ≡ none → dupfd fd arg s ≡ (ebadf, s)
  unfolding dupfd
  dupfd-bad_file h = rw (dupfd, h) refl

  dupfd-bad_arg : (f : ℕ) → file_of fd s ≡ some f → leb 20 arg ≡ true → dupfd fd arg s ≡ (einval, s)
  unfolding dupfd
  dupfd-bad_arg f h high = rw (dupfd, h, high) refl

  dupfd-full :
      (f : ℕ)
      → file_of fd s ≡ some f
      → leb 20 arg ≡ false
      → free_fd (20 - arg) arg s.filp ≡ none
      → dupfd fd arg s ≡ (emfile, s)
  unfolding dupfd
  dupfd-full f h low e = rw (dupfd, h, low, e) refl

  dupfd-share :
      (f free : ℕ)
      → file_of fd s ≡ some f
      → leb 20 arg ≡ false
      → free_fd (20 - arg) arg s.filp ≡ some free
      → dupfd fd arg s ≡ (pos free, share_file free f s)
  unfolding dupfd
  dupfd-share f free h low e = rw (dupfd, h, low, e) refl

  -- On an error nothing changes; else a file is shared at the first free descriptor.
  pub dupfd-cases :
      ((dupfd fd arg s).1 ≡ s)
      ⊎ ((f free : ℕ) × (file_of fd s ≡ some f)
          × FirstFree s.filp arg free
          × (dupfd fd arg s ≡ (pos free, share_file free f s)))
  dupfd-cases = elim (Option-cases (file_of fd s)) [
    | inl gone ↦ inl (ap (λ x. x.1) (dupfd-bad_file gone))
    | inr (f, is) ↦ elim (Bool-cases (leb 20 arg)) [
      | inl high ↦ inl (ap (λ x. x.1) (dupfd-bad_arg f is high))
      | inr low ↦ elim (Option-cases (free_fd (20 - arg) arg s.filp)) [
        | inl no_free ↦ inl (ap (λ x. x.1) (dupfd-full f is low no_free))
        | inr (free, found) ↦
            let low' : arg < 20 = ground arith in
            inr (
              f,
              free,
              is,
              free_fd-FirstFree (20 - arg) arg s.filp (omega arith) found,
              dupfd-share f free is low found,
            )
      ]
    ]
  ]

  -- `dupfd` ends in one of the four ways of `Dupped`, whatever the descriptors and the table.
  pub dupfd-Dupped : Dupped fd arg s (dupfd fd arg s)
  dupfd-Dupped = elim (Option-cases (file_of fd s)) [
    | inl gone ↦ subst (Dupped fd arg s) (sym (dupfd-bad_file gone)) (bad_file gone)
    | inr (f, is) ↦ elim (Bool-cases (leb 20 arg)) [
      | inl high ↦
          subst (Dupped fd arg s) (sym (dupfd-bad_arg f is high)) (bad_arg f is (ground arith))
      | inr low ↦ elim (Option-cases (free_fd (20 - arg) arg s.filp)) [
        | inl no_free ↦
            subst (Dupped fd arg s) (sym (dupfd-full f is low no_free))
              (full f is (λ j l u. free_fd-none (20 - arg) arg s.filp no_free j l (omega arith)))
        | inr (free, found) ↦
            let low' : arg < 20 = ground arith in
            let lowest : FirstFree s.filp arg free =
              free_fd-FirstFree (20 - arg) arg s.filp (omega arith) found in
            subst (Dupped fd arg s) (sym (dupfd-share f free is low found)) (
              dupped f free (share_file free f s) is lowest (share_file_self free f s)
                (share_file-other free f s) (share_file-bit free f s lowest.below))
      ]
    ]
  ]
