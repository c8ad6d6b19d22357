-- ===== src/Exit/Leave/Closing.antt =====
-- kernel/exit.c: the loop of `do_exit` over the descriptors.
use rhee_creatives_linux_v.Base.{
  ℕ, zero, suc, ◌+◌, ◌≤◌, ◌<◌, ◌≡◌, ◌≢◌, refl, ◌∙◌, ap, inl, inr, Option, none, some, ◌==◌, List,
  [], update, update_ne, update_self, arith, Bool-cases, Option-cases, ==_iff, count-eq_zero,
}
use rhee_creatives_linux_v.Base.Int.{ℤ}
use rhee_creatives_linux_v.Files.{Files, Closed, closed, sys_close, nr_open}
use rhee_creatives_linux_v.Files.Counts.{
  Counted, Closes, bad, kept, last, refs, is_file, sys_close-Closes,
}
use rhee_creatives_linux_v.Exit.Leave.{close_all, with_put}

-- After closing the descriptor `fd`, which was open.
pub record Gone (others : ℕ → ℕ) (fd : ℕ) (s s' : Files) : Type 0 where
  pub gone : s'.filp fd ≡ none
  pub rest : (j : ℕ) → j ≢ fd → s'.filp j ≡ s.filp j
  pub counted : Counted others s'

close_one :
    (others : ℕ → ℕ) (fd f : ℕ) (s : Files)
    → Counted others s
    → fd < 20
    → s.filp fd ≡ some f
    → (r : ℤ) × (s' : Files) × (put : Option (Option ℕ)) × (sys_close fd s ≡ closed r s' put)
      × Gone others fd s s'
close_one others fd f s v low is = go (sys_close fd s) (sys_close-Closes others fd s v)
  where
    after : (s' : Files) → s'.filp ≡ update s.filp fd none → Counted others s' → Gone others fd s s'
    after s' e w = record {
      gone = rw e (update_self s.filp fd none);
      rest = λ j ne. rw e (update_ne s.filp fd j none ne);
      counted = w;
    }

    go :
        (c : Closed)
        → Closes others fd s c
        → (r : ℤ) × (s' : Files) × (put : Option (Option ℕ)) × (c ≡ closed r s' put)
          × Gone others fd s s'
    go c (bad s' (inl high) same_filp same_table) = absurd (omega (arith, high, low))
    go c (bad s' (inr gone) same_filp same_table) = cc (gone, is)
    go c (kept g s' here e w left) = (_, s', none, refl, after s' e w)
    go c (last g s' here e w left) = (_, s', _, refl, after s' e w)

-- The descriptors from `fd` on are closed, those below it stay, and the counts are right.
pub record AllClosed (others : ℕ → ℕ) (fd : ℕ) (s s' : Files) : Type 0 where
  pub closed_from : (j : ℕ) → fd ≤ j → j < 20 → s'.filp j ≡ none
  pub below : (j : ℕ) → j < fd → s'.filp j ≡ s.filp j
  pub counted : Counted others s'

close_all-AllClosed :
    (others : ℕ → ℕ) (n fd : ℕ) (s : Files)
    → n + fd ≡ 20
    → Counted others s
    → (s' : Files) × (puts : List (Option ℕ)) × (close_all n fd s ≡ some (s', puts))
      × AllClosed others fd s s'
unfolding close_all
close_all-AllClosed others zero fd s size v = (
  s,
  [],
  refl,
  record { closed_from = λ j l u. absurd (omega arith); below = λ j l. refl; counted = v },
)
close_all-AllClosed others (suc n) fd s size v = elim (Option-cases (s.filp fd)) [
  | inl empty ↦
      let (s', puts, e, c) = close_all-AllClosed others n (fd + 1) s (omega arith) v in
      (
        s',
        puts,
        rw (close_all, empty) e,
        record {
          closed_from = λ j l u. elim (Bool-cases (j == fd)) [
            | inl same ↦
                let p : j ≡ fd = (==_iff j fd).0 same in rw p (c.below fd (omega arith) ∙ empty)
            | inr other ↦ c.closed_from j (ground arith) u
          ];
          below = λ j l. c.below j (omega arith);
          counted = c.counted;
        },
      )
  | inr (f, is) ↦
      let (r, s1, put, call, g) = close_one others fd f s v (omega arith) is in
      let (s', puts, e, c) = close_all-AllClosed others n (fd + 1) s1 (omega arith) g.counted in
      (
        s',
        with_put put puts,
        rw (close_all, is, call, e) refl,
        record {
          closed_from = λ j l u. elim (Bool-cases (j == fd)) [
            | inl same ↦
                let p : j ≡ fd = (==_iff j fd).0 same in rw p (c.below fd (omega arith) ∙ g.gone)
            | inr other ↦ c.closed_from j (ground arith) u
          ];
          below = λ j l. c.below j (omega arith) ∙ g.rest j (omega arith);
          counted = c.counted;
        },
      )
]

-- With each count equal to the number of references, the loop of `do_exit` over the descriptors
-- does not panic and closes all twenty, and each count is then the number of the references that
-- other processes hold.
pub close_all-others :
    (others : ℕ → ℕ) (s : Files)
    → Counted others s
    → (s' : Files) × (puts : List (Option ℕ)) × (close_all nr_open 0 s ≡ some (s', puts))
      × ((j : ℕ) → j < 20 → s'.filp j ≡ none)
      × ((f : ℕ) → (s'.table f).f_count ≡ others f)
close_all-others others s v =
    let (s', puts, e, c) = close_all-AllClosed others 20 0 s (omega arith) v in
    (
      s',
      puts,
      e,
      λ j l. c.closed_from j (omega arith) l,
      λ f.
          let empty : refs f s'.filp ≡ 0 =
            count-eq_zero (is_file f) 20 s'.filp
              (λ j l. ap (is_file f) (c.closed_from j (omega arith) l)) in
          omega (arith, empty, c.counted.counted f),
    )
