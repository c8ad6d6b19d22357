-- ===== src/Fork/Shares.antt =====
-- kernel/fork.c: the outcomes of `copy_process`, and the counts of the files that are shared.
use rhee_creatives_linux_v.Base.{
  ℕ, zero, suc, ◌+◌, ◌<◌, ◌^◌, ◌≡◌, ◌≢◌, refl, ◌⊎◌, inl, inr, Option, none, some, false, ◌==◌,
  arith, Option-cases, count, count-le, update, update_ne, update_self,
}
use rhee_creatives_linux_v.Base.Int.{ℤ}
use rhee_creatives_linux_v.Task.{Task}
use rhee_creatives_linux_v.Files.{File, nr_open}
use rhee_creatives_linux_v.Files.Counts.{Counted, refs, is_file}
use rhee_creatives_linux_v.Memory.{Mem, get_free_page, free_page, free_pages}
use rhee_creatives_linux_v.Memory.Alloc.{get_free_page-Allocated}
use rhee_creatives_linux_v.Memory.Share.{Copied, copied, no_memory, panicked}
use rhee_creatives_linux_v.Fork.{
  share_files, Forked, copy_process, copy_mem, Kernel, Segments, child_of, share_inode,
}

-- Sharing the first `n` descriptors adds the number of them that name the file.
share_files-count :
    (n : ℕ) (filp : ℕ → Option ℕ) (t : ℕ → File) (f : ℕ)
    → (t f).f_count + n < 2 ^ 16
    → (share_files n filp t f).f_count ≡ (t f).f_count + count (is_file f) n filp
unfolding share_files count
share_files-count zero filp t f fits = omega arith
share_files-count (suc n) filp t f fits =
    let before = share_files-count n filp t f (omega arith) in
    elim (Option-cases (filp n)) [
      | inl gone ↦ rw gone (ground (arith, before))
      | inr (g, here) ↦ rw here (ground (arith, before, count-le (is_file f) n filp))
    ]

-- The parent and the child, once `copy_process` has made the child.
pub record Born (k : Kernel) (me : Task) (nr : ℕ) (pid jiffies : ℤ) (others : ℕ → ℕ) (r : Kernel)
    : Type 0 where
  pub child : r.task nr ≡ some (child_of me pid jiffies)
  pub rest : (j : ℕ) → j ≢ nr → r.task j ≡ k.task j
  pub counted :
      Counted
        (λ f. others f + refs f me.filp)
        (record { filp = me.filp; close_on_exec = me.close_on_exec; table = r.files })

-- `copy_process` ends in one of four ways.
pub data Forks (nr : ℕ) (pid jiffies : ℤ) (seg : Segments) (me : Task) (k : Kernel) (others : ℕ → ℕ)
    : Forked → Type 0 where
  born :
      (r : Kernel)
      → copy_mem nr seg (get_free_page k.mem).1 ≡ copied r.mem
      → Born k me nr pid jiffies others r
      → Forks nr pid jiffies seg me k others (Forked.forked pid r)
  no_page : free_pages k.mem ≡ 0 → Forks nr pid jiffies seg me k others (Forked.again k)
  no_tables :
      (m m' : Mem)
      → copy_mem nr seg (get_free_page k.mem).1 ≡ no_memory m
      → free_page (get_free_page k.mem).0 m ≡ some m'
      → Forks nr pid jiffies seg me k others (Forked.again (record k { mem = m' }))
  stopped :
      (copy_mem nr seg (get_free_page k.mem).1 ≡ panicked)
        ⊎ ((m : Mem) × (copy_mem nr seg (get_free_page k.mem).1 ≡ no_memory m)
            × (free_page (get_free_page k.mem).0 m ≡ none))
      → Forks nr pid jiffies seg me k others Forked.halted

module _ (nr : ℕ) (pid jiffies : ℤ) (seg : Segments) (me : Task) (k : Kernel) (others : ℕ → ℕ) where
  abbrev with_child : Mem → Kernel
  with_child m = record {
    mem = m;
    task = update k.task nr (some (child_of me pid jiffies));
    files = share_files nr_open me.filp k.files;
    i_count = share_inode me.root (share_inode me.pwd k.i_count);
  }

  module _ (got : ((get_free_page k.mem).0 == 0) ≡ false) where
    process-copied :
        (m : Mem)
        → copy_mem nr seg (get_free_page k.mem).1 ≡ copied m
        → copy_process nr pid jiffies seg me k ≡ Forked.forked pid (with_child m)
    unfolding copy_process
    process-copied m e = rw (copy_process, got, e) refl

    process-refused :
        (m m' : Mem)
        → copy_mem nr seg (get_free_page k.mem).1 ≡ no_memory m
        → free_page (get_free_page k.mem).0 m ≡ some m'
        → copy_process nr pid jiffies seg me k ≡ Forked.again (record k { mem = m' })
    unfolding copy_process
    process-refused m m' e f = rw (copy_process, got, e, f) refl

    process-halted :
        (m : Mem)
        → copy_mem nr seg (get_free_page k.mem).1 ≡ no_memory m
        → free_page (get_free_page k.mem).0 m ≡ none
        → copy_process nr pid jiffies seg me k ≡ Forked.halted
    unfolding copy_process
    process-halted m e f = rw (copy_process, got, e, f) refl

    process-panicked :
        copy_mem nr seg (get_free_page k.mem).1 ≡ panicked
        → copy_process nr pid jiffies seg me k ≡ Forked.halted
    unfolding copy_process
    process-panicked e = rw (copy_process, got, e) refl

  process-full :
      get_free_page k.mem ≡ (0, k.mem) → copy_process nr pid jiffies seg me k ≡ Forked.again k
  unfolding copy_process
  process-full full = rw (copy_process, full) refl

  module _ (small : (f : ℕ) → others f + 40 < 2 ^ 16)
      (counts : Counted others
        (record { filp = me.filp; close_on_exec = me.close_on_exec; table = k.files })) where
    with_child-Born : (m : Mem) → Born k me nr pid jiffies others (with_child m)
    with_child-Born m = record {
      child = update_self k.task nr (some (child_of me pid jiffies));
      rest = λ j ne. update_ne k.task nr j (some (child_of me pid jiffies)) ne;
      counted = record {
        counted = λ f.
            let below = count-le (is_file f) 20 me.filp in
            omega (
              arith,
              counts.counted f,
              share_files-count 20 me.filp k.files f
                  (omega (arith, small f, counts.counted f, below)),
            );
      };
    }

    after_mem :
        ((get_free_page k.mem).0 == 0) ≡ false
        → (c : Copied) → copy_mem nr seg (get_free_page k.mem).1 ≡ c
        → Forks nr pid jiffies seg me k others (copy_process nr pid jiffies seg me k)
    after_mem got (copied m) e =
        rw (process-copied got m e) (born (with_child m) e (with_child-Born m))
    after_mem got panicked e = rw (process-panicked got e) (stopped (inl e))
    after_mem got (no_memory m) e = elim (Option-cases (free_page (get_free_page k.mem).0 m)) [
      | inl bad ↦ rw (process-halted got m e bad) (stopped (inr (m, e, bad)))
      | inr (m', done) ↦ rw (process-refused got m m' e done) (no_tables m m' e done)
    ]

    -- With each count of a file equal to the number of its references, and small enough for its 16
    -- bits: `copy_process` returns the pid with the child in its slot and no other slot changed, the
    -- child ready to run with a full slice, no signal and no times, and with each count again the
    -- number of references, those of the parent now being twice; or -EAGAIN when no page is
    -- free, with no change; or -EAGAIN when the memory cannot be copied, with only memory
    -- changed; or it panics, because `copy_mem` or `free_page` does.
    pub copy_process-Forks :
        Forks nr pid jiffies seg me k others (copy_process nr pid jiffies seg me k)
    copy_process-Forks = elim (get_free_page-Allocated k.mem) [
      | inl (full, none_free) ↦ rw (process-full full) (no_page none_free)
      | inr (i, al) ↦
          let some_page : ((get_free_page k.mem).0 == 0) ≡ false = ground (arith, al.address) in
          after_mem some_page (copy_mem nr seg (get_free_page k.mem).1) refl
    ]
