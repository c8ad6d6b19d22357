-- ===== src/Files/Counts.antt =====
-- fs/fcntl.c and fs/open.c: the reference counts of the file table, under dup, dup2 and close.
use rhee_creatives_linux_v.Base.{
  ℕ, ◌+◌, ◌-◌, ◌≤◌, ◌<◌, ◌^◌, ◌≡◌, refl, sym, ◌∙◌, ap, subst, ◌⊎◌, inl, inr, Option, none, some,
  Bool, true, false, if◌then◌else◌, ◌==◌, leb, update, arith, Bool-cases, Option-cases, ==_iff,
  count, count-update, count-le,
}
use rhee_creatives_linux_v.Base.Int.{ℤ, pos}
use rhee_creatives_linux_v.Files.{
  Files, Closed, einval, share_file, dupfd, drop_file, sys_close, sys_dup2, set_count,
}
use rhee_creatives_linux_v.Files.Dup.{dupfd-cases}

abbrev pub is_file : ℕ → Option ℕ → Bool
is_file f none = false
is_file f (some g) = g == f

-- The descriptors of the process that name the file.
abbrev pub refs : ℕ → (ℕ → Option ℕ) → ℕ
refs f filp = count (is_file f) 20 filp

-- Each count is the number of references: those of this process, and `others` of the rest of the
-- kernel.
pub record Counted (others : ℕ → ℕ) (s : Files) : Type 0 where
  pub counted : (f : ℕ) → (s.table f).f_count ≡ refs f s.filp + others f

pub refs-take :
    (filp : ℕ → Option ℕ) (fd f g : ℕ)
    → fd < 20
    → filp fd ≡ none
    → refs g (update filp fd (some f)) ≡ refs g filp + (if f == g then 1 else 0)
refs-take filp fd f g h e = ground (arith, e, count-update (is_file g) 20 filp fd (some f) h)

pub refs-drop :
    (filp : ℕ → Option ℕ) (fd f g : ℕ)
    → fd < 20
    → filp fd ≡ some f
    → refs g (update filp fd none) + (if f == g then 1 else 0) ≡ refs g filp
refs-drop filp fd f g h e = ground (arith, e, count-update (is_file g) 20 filp fd none h)

module _ (others : ℕ → ℕ) (small : (f : ℕ) → others f + 20 < 2 ^ 16) where
  share_file-Counted :
      (fd f : ℕ) (s : Files)
      → fd < 20
      → s.filp fd ≡ none
      → Counted others s
      → Counted others (share_file fd f s)
  unfolding share_file
  share_file-Counted fd f s h e v = record {
    counted = λ g. ground (
      arith,
      small g,
      v.counted g,
      refs-take s.filp fd f g h e,
      count-le (is_file g) 20 (update s.filp fd (some f)),
    );
  }

  pub dupfd-Counted :
      (fd arg : ℕ) (s : Files) → Counted others s → Counted others (dupfd fd arg s).1
  dupfd-Counted fd arg s v = elim (dupfd-cases fd arg s) [
    | inl same ↦ subst (Counted others) (sym same) v
    | inr (f, free, is, lowest, e) ↦
        subst (Counted others) (sym (ap (λ x. x.1) e))
          (share_file-Counted free f s lowest.below lowest.is_free v)
  ]

-- What `sys_close` may do. A bad descriptor changes no descriptor and no count; else the descriptor
-- is free, the others are as before, and `iput` gets the inode exactly when no reference is left.
pub data Closes (others : ℕ → ℕ) (fd : ℕ) (s : Files) : Closed → Type 0 where
  bad :
      (s' : Files)
      → (20 ≤ fd) ⊎ (s.filp fd ≡ none)
      → s'.filp ≡ s.filp
      → s'.table ≡ s.table
      → Closes others fd s (Closed.closed einval s' none)
  kept :
      (f : ℕ) (s' : Files)
      → s.filp fd ≡ some f
      → s'.filp ≡ update s.filp fd none
      → Counted others s'
      → 0 < refs f s'.filp + others f
      → Closes others fd s (Closed.closed (pos 0) s' none)
  last :
      (f : ℕ) (s' : Files)
      → s.filp fd ≡ some f
      → s'.filp ≡ update s.filp fd none
      → Counted others s'
      → refs f s'.filp + others f ≡ 0
      → Closes others fd s (Closed.closed (pos 0) s' (some (s.table f).f_inode))

module _ (others : ℕ → ℕ) (fd f : ℕ) (s : Files) where
  -- The files after the descriptor and its reference are gone.
  abbrev dropped : Files
  dropped = record s {
    filp = update s.filp fd none;
    table = set_count f ((s.table f).f_count - 1) s.table;
  }

  module _ (h : fd < 20) (e : s.filp fd ≡ some f) (v : Counted others s) where
    dropped-Counted : Counted others dropped
    dropped-Counted = record {
      counted = λ g. ground (arith, v.counted g, v.counted f, refs-drop s.filp fd f g h e);
    }

    positive : 0 < (s.table f).f_count
    positive = ground (arith, v.counted f, refs-drop s.filp fd f f h e)

    count_after : refs f dropped.filp + others f ≡ (s.table f).f_count - 1
    count_after = ground (arith, v.counted f, refs-drop s.filp fd f f h e)

    drop_file-kept :
        ((s.table f).f_count - 1 == 0) ≡ false
        → drop_file fd f s ≡ Closed.closed (pos 0) dropped none
    unfolding drop_file
    drop_file-kept more = ground (arith, more, positive)

    drop_file-last :
        ((s.table f).f_count - 1 == 0) ≡ true
        → drop_file fd f s ≡ Closed.closed (pos 0) dropped (some (s.table f).f_inode)
    unfolding drop_file
    drop_file-last done = ground (arith, done, positive)

-- `c` is the new `close_on_exec`.
drop_file-Closes :
    (others : ℕ → ℕ) (fd f c : ℕ) (s : Files)
    → fd < 20
    → s.filp fd ≡ some f
    → Counted others s
    → Closes others fd s (drop_file fd f (record s { close_on_exec = c }))
drop_file-Closes others fd f c s h e v = elim (Bool-cases ((s.table f).f_count - 1 == 0)) [
  | inl done ↦ subst (Closes others fd s) (sym (drop_file-last others fd f s1 h e w done)) (
      last f (dropped others fd f s1) e refl after
        (omega (arith, left, (==_iff ((s.table f).f_count - 1) 0).0 done)))
  | inr more ↦
      subst (Closes others fd s) (sym (drop_file-kept others fd f s1 h e w more))
        (kept f (dropped others fd f s1) e refl after (ground (arith, left, more)))
]
  where
    s1 : Files
    s1 = record s { close_on_exec = c }

    w : Counted others s1
    w = record { counted = v.counted }

    after : Counted others (dropped others fd f s1)
    after = dropped-Counted others fd f s1 h e w

    left : refs f (dropped others fd f s1).filp + others f ≡ (s.table f).f_count - 1
    left = count_after others fd f s1 h e w

-- With each count equal to the number of references, `sys_close` ends in one of the three ways of
-- `Closes`, and so does not reach its panic.
pub sys_close-Closes :
    (others : ℕ → ℕ) (fd : ℕ) (s : Files) → Counted others s → Closes others fd s (sys_close fd s)
unfolding sys_close
sys_close-Closes others fd s v = elim (Bool-cases (leb 20 fd)) [
  | inl high ↦ rw (sys_close, high) (bad s (inl (ground arith)) refl refl)
  | inr low ↦
      rw (sys_close, low)
        (elim (Option-cases (s.filp fd)) [
          | inl gone ↦ rw gone (bad _ (inr gone) refl refl)
          | inr (f, is) ↦ rw is (drop_file-Closes others fd f _ s (ground arith) is v)
        ])
]

-- A call that ends without a panic, with the counts right.
pub data Ends (others : ℕ → ℕ) : Closed → Type 0 where
  ends :
      (r : ℤ) (s : Files) (put : Option (Option ℕ))
      → Counted others s
      → Ends others (Closed.closed r s put)

Closes-Ends :
    {others : ℕ → ℕ} {fd : ℕ} {s : Files} {c : Closed}
    → Counted others s
    → Closes others fd s c
    → Ends others c
Closes-Ends {others} v (bad s' why same_filp same_table) = ends _ s' none (record {
  counted = λ f.
      ap (λ t. (t f).f_count) same_table
      ∙ v.counted f
      ∙ ap (λ t. refs f t + others f) (sym same_filp);
})
Closes-Ends v (kept f s' is gone w left) = ends _ s' none w
Closes-Ends v (last f s' is gone w left) = ends _ s' _ w

-- While the counts fit their 16 bits, `sys_dup2` never reaches the panic of the `sys_close` in it,
-- and each count is again the number of references.
pub sys_dup2-Ends :
    (others : ℕ → ℕ) (oldfd newfd : ℕ) (s : Files)
    → ((f : ℕ) → others f + 20 < 2 ^ 16)
    → Counted others s
    → Ends others (sys_dup2 oldfd newfd s)
unfolding sys_dup2
sys_dup2-Ends others oldfd newfd s small v =
    go (sys_close newfd s) (Closes-Ends v (sys_close-Closes others newfd s v))
  where
    go :
        (c : Closed)
        → Ends others c
        → Ends others (elim c [
          | Closed.closed _ s' put ↦
              Closed.closed (dupfd oldfd newfd s').0 (dupfd oldfd newfd s').1 put
          | Closed.panicked ↦ Closed.panicked
        ])
    go (Closed.closed r s' put) (ends _ _ _ w) =
        ends _ _ put (dupfd-Counted others small oldfd newfd s' w)
    go Closed.panicked e = elim e [ ]
