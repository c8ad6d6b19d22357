-- ===== src/Itable/Sync.antt =====
-- fs/inode.c: `sync_inodes` writes what is dirty.
use rhee_creatives_linux_v.Base.{
  ℕ, zero, suc, ◌+◌, ◌≤◌, ◌<◌, ◌≡◌, ◌≢◌, refl, sym, ◌∙◌, ap, ap₂, subst, inl, inr, some, true,
  false, not, ◌&&◌, ◌==◌, update, arith, Bool-cases, ==_iff,
}
use rhee_creatives_linux_v.Itable.{
  DInode, Itable, nr_inode, inode_block, place_of, store, write_inode, sync_from, sync_inodes,
}
use rhee_creatives_linux_v.Itable.Views.{stored_at, Shows, Readable, at_place, same_number}

-- The entry `i` written.
abbrev saved : ℕ → Itable → Itable
saved i s = record s {
  table = update s.table i (record (s.table i) { i_dirt = false });
  disk =
      store (s.table i).i_dev (inode_block s (s.table i).i_dev (s.table i).i_num)
        (place_of (s.table i).i_num) (s.table i).on_disk s.disk;
}

module _ (f : ℕ → ℕ → DInode) where
  module _ (s : Itable) (shows : Shows s f) (readable : Readable s) (i : ℕ)
      (small : i < nr_inode) where
    written : write_inode i s ≡ some (saved i s)
    unfolding write_inode
    written = rw (readable (s.table i).i_dev (inode_block s (s.table i).i_dev (s.table i).i_num))

    elsewhere :
        (dev nr j : ℕ)
        → j ≡ i
        → (s.table j).i_dev ≡ dev
        → (s.table j).i_num ≡ nr
        → at_place f s shows readable i small dev nr ≡ false
        → ⊥
    elsewhere dev nr j e d n away =
        let d' : dev ≡ (s.table i).i_dev = sym d ∙ ap (λ k. (s.table k).i_dev) e in
        let n' : nr ≡ (s.table i).i_num = sym n ∙ ap (λ k. (s.table k).i_num) e in
        let here : at_place f s shows readable i small dev nr ≡ true = rw (d', n') (ground arith) in
        ground arith

    saved-Shows : Shows (saved i s) f
    saved-Shows = record {
      entries = λ j low ne. elim (Bool-cases (j == i)) [
        | inl same ↦ rw same (shows.entries i small (rw same at ne))
        | inr other ↦ rw other (shows.entries j low (ground arith))
      ];
      numbered = λ j low ne. elim (Bool-cases (j == i)) [
        | inl same ↦ rw same (shows.numbered i small (rw same at ne))
        | inr other ↦ rw other (shows.numbered j low (ground arith))
      ];
      stored = λ dev nr ne pos_nr all.
          elim (Bool-cases (at_place f s shows readable i small dev nr)) [
            | inl own ↦
                let d : dev ≡ (s.table i).i_dev = ground arith in
                let n : nr ≡ (s.table i).i_num =
                  same_number f s shows readable i small dev nr d pos_nr (λ z. ne (d ∙ z)) own in
                rw own (shows.entries i small (λ z. ne (d ∙ z)) ∙ ap₂ f (sym d) (sym n))
            | inr away ↦ rw away (
                shows.stored dev nr ne pos_nr λ j low d n. elim (Bool-cases (j == i)) [
                  | inl same ↦ absurd (elsewhere dev nr j ((==_iff j i).0 same) d n away)
                  | inr other ↦ ground (arith, all j low)
                ])
          ];
    }

-- What `sync_inodes` has done when it comes to the entry `i`: an entry is as it was, but for the mark.
pub record Synced (f : ℕ → ℕ → DInode) (i : ℕ) (s t : Itable) : Type 0 where
  pub shows : Shows t f
  pub readable : Readable t
  pub clean : (j : ℕ) → j < i → (s.table j).i_pipe ≡ false → (t.table j).i_dirt ≡ false
  pub contents : (j : ℕ) → (t.table j).on_disk ≡ (s.table j).on_disk
  pub devs : (j : ℕ) → (t.table j).i_dev ≡ (s.table j).i_dev
  pub nums : (j : ℕ) → (t.table j).i_num ≡ (s.table j).i_num
  pub counts : (j : ℕ) → (t.table j).i_count ≡ (s.table j).i_count
  pub pipes : (j : ℕ) → (t.table j).i_pipe ≡ (s.table j).i_pipe

module _ (f : ℕ → ℕ → DInode) (s : Itable) where
  one_written :
      (i : ℕ) (t : Itable) → i < nr_inode → Synced f i s t → Synced f (i + 1) s (saved i t)
  one_written i t small v = record {
    shows = saved-Shows f t v.shows v.readable i small;
    readable = v.readable;
    clean = λ j low no_pipe. ground (arith, v.clean j);
    contents = λ j. elim (Bool-cases (j == i)) [
      | inl same ↦
          rw same (ap (λ k. (t.table k).on_disk) (sym ((==_iff j i).0 same)) ∙ v.contents j)
      | inr other ↦ rw other (v.contents j)
    ];
    devs = λ j. ground (arith, v.devs j);
    nums = λ j. ground (arith, v.nums j);
    counts = λ j. ground (arith, v.counts j);
    pipes = λ j. ground (arith, v.pipes j);
  }

  one_kept :
      (i : ℕ) (t : Itable)
      → (t.table i).i_dirt && not (t.table i).i_pipe ≡ false
      → Synced f i s t
      → Synced f (i + 1) s t
  one_kept i t same v = record {
    shows = v.shows;
    readable = v.readable;
    contents = v.contents;
    devs = v.devs;
    nums = v.nums;
    counts = v.counts;
    pipes = v.pipes;
    clean = λ j low no_pipe. ground (arith, v.clean j, v.pipes j);
  }

  sync_from-Synced :
      (k i : ℕ) (t : Itable)
      → i + k ≡ nr_inode
      → Synced f i s t
      → (u : Itable) × (sync_from k i t ≡ some u) × Synced f nr_inode s u
  unfolding sync_from
  sync_from-Synced zero i t e v = (t, refl, subst (λ n. Synced f n s t) (omega (arith, e)) v)
  sync_from-Synced (suc k) i t e v =
      elim (Bool-cases ((t.table i).i_dirt && not (t.table i).i_pipe)) [
        | inl dirty ↦
            let small : i < nr_inode = omega (arith, e) in
            rw (sync_from, dirty, written f t v.shows v.readable i small)
              (sync_from-Synced k (i + 1) (saved i t) (omega (arith, e)) (one_written i t small v))
        | inr other ↦
            rw (sync_from, other)
              (sync_from-Synced k (i + 1) t (omega (arith, e)) (one_kept i t other v))
      ]

  -- When the table and the devices show the inodes `f`, all blocks can be read, and a pipe has no
  -- device, `sync_inodes` ends without a panic; afterwards each block holds its inode as `f` has it,
  -- and every entry has the contents, name and users that it had, and is clean unless it is a pipe.
  pub sync_inodes-Stored :
      Shows s f
      → Readable s
      → ((i : ℕ) → (s.table i).i_pipe ≡ true → (s.table i).i_dev ≡ 0)
      → (t : Itable) × (sync_inodes s ≡ some t)
        × Synced f nr_inode s t
        × ((dev nr : ℕ) → dev ≢ 0 → 1 ≤ nr → stored_at t dev nr ≡ f dev nr)
  unfolding sync_inodes
  sync_inodes-Stored shows readable pipes =
      let (t, ends, v) = sync_from-Synced nr_inode 0 s refl (record {
        shows = shows;
        readable = readable;
        clean = λ j low no_pipe. absurd (omega arith);
        contents = λ j. refl;
        devs = λ j. refl;
        nums = λ j. refl;
        counts = λ j. refl;
        pipes = λ j. refl;
      }) in
      (
        t,
        ends,
        v,
        λ dev nr ne pos_nr. v.shows.stored dev nr ne pos_nr λ i low d n.
            elim (Bool-cases (s.table i).i_pipe) [
              | inl pipe ↦ absurd (ne (sym d ∙ v.devs i ∙ pipes i pipe))
              | inr file ↦ v.clean i low file
            ],
      )
