-- ===== src/Itable/Views.antt =====
-- fs/inode.c: the table as a view of the inodes of the devices, which `iget` and `iput` do not change.
use rhee_creatives_linux_v.Base.{
  ℕ, zero, suc, ◌+◌, ◌-◌, ◌%◌, ◌≤◌, ◌<◌, ◌≡◌, ◌≢◌, sym, ◌∙◌, ap, ap₂, subst, inl, inr, Option, none,
  some, Bool, true, false, ◌&&◌, ◌==◌, leb, if◌then◌else◌, update, arith, Bool-cases, Option-cases,
  ==_iff,
}
use rhee_creatives_linux_v.Itable.{
  DInode, MInode, no_inode, Itable, nr_inode, got, inode_block, place_of, store, write_inode,
  find_unused, cleared, get_empty_inode, find_inode,
}

-- The inode `nr` of a device, as its block has it.
abbrev pub stored_at : Itable → ℕ → ℕ → DInode
stored_at s dev nr = s.disk dev (inode_block s dev nr) (place_of nr)

-- The table and the devices show the inode `f dev nr` as the inode `nr` of the device `dev`: an entry
-- holds it, and so does the device unless a dirty entry does.
pub record Shows (s : Itable) (f : ℕ → ℕ → DInode) : Type 0 where
  pub entries :
      (i : ℕ)
      → i < nr_inode
      → (s.table i).i_dev ≢ 0
      → (s.table i).on_disk ≡ f (s.table i).i_dev (s.table i).i_num
  pub numbered : (i : ℕ) → i < nr_inode → (s.table i).i_dev ≢ 0 → 1 ≤ (s.table i).i_num
  pub stored :
      (dev nr : ℕ)
      → dev ≢ 0
      → 1 ≤ nr
      → ((i : ℕ)
          → i < nr_inode
          → (s.table i).i_dev ≡ dev
          → (s.table i).i_num ≡ nr
          → (s.table i).i_dirt ≡ false)
      → stored_at s dev nr ≡ f dev nr

-- No inode has two entries.
abbrev pub Unique : Itable → Type 0
Unique s =
    (i j : ℕ)
    → i < nr_inode
    → j < nr_inode
    → (s.table i).i_dev ≢ 0
    → (s.table i).i_dev ≡ (s.table j).i_dev
    → (s.table i).i_num ≡ (s.table j).i_num
    → i ≡ j

abbrev pub Readable : Itable → Type 0
Readable s = (dev block : ℕ) → s.readable dev block ≡ true

-- The outcome of the search for an entry without a user: `from + j` counts round the table.
abbrev Unused : ℕ → ℕ → (ℕ → MInode) → Option ℕ → Type 0
Unused k from t none = (j : ℕ) → j < k → (t ((from + j) % nr_inode)).i_count ≢ 0
Unused k from t (some i) = (i < nr_inode) × ((t i).i_count ≡ 0)

later-Unused :
    (k from : ℕ) (t : ℕ → MInode) (o : Option ℕ)
    → from < nr_inode
    → (t from).i_count ≢ 0
    → Unused k (if leb nr_inode (from + 1) then 0 else from + 1) t o
    → Unused (suc k) from t o
later-Unused k from t (some i) small used rest = rest
later-Unused k from t none small used rest = λ j low. elim (Bool-cases (j == 0)) [
  | inl first ↦ let e : (from + j) % nr_inode ≡ from = ground arith in rw e used
  | inr later ↦
      let e : ((if leb nr_inode (from + 1) then 0 else from + 1) + (j - 1)) % nr_inode
          ≡ (from + j) % nr_inode =
        ground arith in
      subst (λ p. (t p).i_count ≢ 0) e (rest (j - 1) (ground arith))
]

find_unused-Unused :
    (k from : ℕ) (t : ℕ → MInode) → from < nr_inode → Unused k from t (find_unused k from t)
unfolding find_unused
find_unused-Unused zero from t small = λ j low. absurd (omega arith)
find_unused-Unused (suc k) from t small = elim (Bool-cases ((t from).i_count == 0)) [
  | inl unused ↦ rw unused (small, ground arith)
  | inr used ↦
      rw used
        (later-Unused k from t _ small (ground arith) (find_unused-Unused k _ t (ground arith)))
]

-- What `get_empty_inode` does.
pub record Emptied (f : ℕ → ℕ → DInode) (s : Itable) : Type 0 where
  pub entry : ℕ
  pub after : Itable
  pub runs : get_empty_inode s ≡ got entry after
  pub small : entry < nr_inode
  pub unused : (s.table entry).i_count ≡ 0
  pub clear : after.table entry ≡ record no_inode { i_count = 1 }
  pub kept : (j : ℕ) → j ≢ entry → after.table j ≡ s.table j
  pub shows : Shows after f
  pub readable : Readable after

module _ (f : ℕ → ℕ → DInode) (s : Itable) (shows : Shows s f) (readable : Readable s) where
  -- The entry `i` dropped, written first if it is dirty.
  module _ (i : ℕ) (small : i < nr_inode) where
    abbrev t : Itable
    t = record s { last = i }

    abbrev saved : Itable
    saved = record t {
      table = update s.table i (record (s.table i) { i_dirt = false });
      disk =
          store (s.table i).i_dev (inode_block s (s.table i).i_dev (s.table i).i_num)
            (place_of (s.table i).i_num) (s.table i).on_disk s.disk;
    }

    -- The place of the entry `i`.
    abbrev pub at_place : ℕ → ℕ → Bool
    at_place dev nr =
        (dev == (s.table i).i_dev)
        && (inode_block s dev nr == inode_block s (s.table i).i_dev (s.table i).i_num)
        && (place_of nr == place_of (s.table i).i_num)

    pub same_number :
        (dev nr : ℕ)
        → dev ≡ (s.table i).i_dev
        → 1 ≤ nr
        → (s.table i).i_dev ≢ 0
        → at_place dev nr ≡ true
        → nr ≡ (s.table i).i_num
    same_number dev nr d pos_nr ne own =
        let pos_num = shows.numbered i small ne in
        let blocks : inode_block s dev nr ≡ inode_block s (s.table i).i_dev (s.table i).i_num =
          ground arith in
        let places : place_of nr ≡ place_of (s.table i).i_num = ground arith in
        let imap : s.s_imap_blocks dev ≡ s.s_imap_blocks (s.table i).i_dev = ap s.s_imap_blocks d in
        let zmap : s.s_zmap_blocks dev ≡ s.s_zmap_blocks (s.table i).i_dev = ap s.s_zmap_blocks d in
        omega (arith, blocks, places, imap, zmap, pos_num)

    written : write_inode i t ≡ some saved
    unfolding write_inode
    written = rw (readable (s.table i).i_dev (inode_block s (s.table i).i_dev (s.table i).i_num))

    clean-Shows : (s.table i).i_dirt ≡ false → Shows (cleared i t) f
    clean-Shows clean = record {
      entries = λ j low ne. elim (Bool-cases (j == i)) [
        | inl same ↦ absurd (ground arith)
        | inr other ↦ rw other (shows.entries j low (ground arith))
      ];
      numbered = λ j low ne. elim (Bool-cases (j == i)) [
        | inl same ↦ absurd (ground arith)
        | inr other ↦ rw other (shows.numbered j low (ground arith))
      ];
      stored = λ dev nr ne pos_nr all. shows.stored dev nr ne pos_nr λ j low d n.
          elim (Bool-cases (j == i)) [
            | inl same ↦ rw ((==_iff j i).0 same) clean
            | inr other ↦ ground (arith, all j low)
          ];
    }

    dirty-Shows : Shows (cleared i saved) f
    dirty-Shows = record {
      entries = λ j low ne. elim (Bool-cases (j == i)) [
        | inl same ↦ absurd (ground arith)
        | inr other ↦ rw other (shows.entries j low (ground arith))
      ];
      numbered = λ j low ne. elim (Bool-cases (j == i)) [
        | inl same ↦ absurd (ground arith)
        | inr other ↦ rw other (shows.numbered j low (ground arith))
      ];
      stored = λ dev nr ne pos_nr all. elim (Bool-cases (at_place dev nr)) [
        | inl own ↦
            let d : dev ≡ (s.table i).i_dev = ground arith in
            let n : nr ≡ (s.table i).i_num = same_number dev nr d pos_nr (λ z. ne (d ∙ z)) own in
            rw own (shows.entries i small (λ z. ne (d ∙ z)) ∙ ap₂ f (sym d) (sym n))
        | inr away ↦ rw away (
            shows.stored dev nr ne pos_nr λ j low d n. elim (Bool-cases (j == i)) [
              | inl same ↦ absurd (elsewhere dev nr j ((==_iff j i).0 same) d n away)
              | inr other ↦ ground (arith, all j low)
            ])
      ];
    }
      where
        elsewhere :
            (dev nr j : ℕ)
            → j ≡ i
            → (s.table j).i_dev ≡ dev
            → (s.table j).i_num ≡ nr
            → at_place dev nr ≡ false
            → ⊥
        elsewhere dev nr j e d n away =
            let d' : dev ≡ (s.table i).i_dev = sym d ∙ ap (λ k. (s.table k).i_dev) e in
            let n' : nr ≡ (s.table i).i_num = sym n ∙ ap (λ k. (s.table k).i_num) e in
            let here : at_place dev nr ≡ true = rw (d', n') (ground arith) in ground arith

  module _ (in_table : s.last < nr_inode) (k : ℕ) (k_lt : k < nr_inode)
      (free : (s.table k).i_count ≡ 0) where
    emptied :
        (i : ℕ)
        → i < nr_inode
        → (s.table i).i_count ≡ 0
        → find_unused nr_inode s.last s.table ≡ some i
        → Emptied f s
    unfolding get_empty_inode
    emptied i small unused found = elim (Bool-cases (s.table i).i_dirt) [
      | inl dirty ↦ record {
        entry = i;
        after = cleared i (saved i small);
        runs = rw (get_empty_inode, found, dirty, written i small);
        small = small;
        unused = unused;
        clear = ground arith;
        kept = λ j ne. ground arith;
        shows = dirty-Shows i small;
        readable = readable;
      }
      | inr clean ↦ record {
        entry = i;
        after = cleared i (t i small);
        runs = rw (get_empty_inode, found, clean);
        small = small;
        unused = unused;
        clear = ground arith;
        kept = λ j ne. ground arith;
        shows = clean-Shows i small clean;
        readable = readable;
      }
    ]

    pub get_empty_inode-Emptied : Emptied f s
    get_empty_inode-Emptied =
        let outcome = find_unused-Unused nr_inode s.last s.table in_table in
        elim (Option-cases (find_unused nr_inode s.last s.table)) [
          | inl e ↦
              let all : Unused nr_inode s.last s.table none = rw e at outcome in
              let here : (s.last + (k + nr_inode - s.last) % nr_inode) % nr_inode ≡ k =
                omega arith in
              let used = all ((k + nr_inode - s.last) % nr_inode) (omega arith) in
              absurd (used (rw here free))
          | inr (i, e) ↦
              let some_one : Unused nr_inode s.last s.table (some i) = rw e at outcome in
              emptied i some_one.0 some_one.1 e
        ]

-- The walk through the table finds the first entry with the name, if there is one.
abbrev pub Named : ℕ → ℕ → ℕ → ℕ → (ℕ → MInode) → Option ℕ → Type 0
Named k from dev nr t none =
    (j : ℕ) → from ≤ j → j < from + k → (t j).i_dev ≡ dev → (t j).i_num ≡ nr → ⊥
Named k from dev nr t (some i) = (i < from + k) × ((t i).i_dev ≡ dev) × ((t i).i_num ≡ nr)

pub find_inode-Named :
    (k from dev nr : ℕ) (t : ℕ → MInode) → Named k from dev nr t (find_inode k from dev nr t)
unfolding find_inode
find_inode-Named zero from dev nr t = λ j p q. absurd (omega arith)
find_inode-Named (suc k) from dev nr t =
    elim (Bool-cases (((t from).i_dev == dev) && ((t from).i_num == nr))) [
      | inl own ↦ rw own (omega arith, ground arith, ground arith)
      | inr other ↦
          rw other (
            onward (find_inode k (from + 1) dev nr t) (find_inode-Named k (from + 1) dev nr t)
              other)
    ]
  where
    onward :
        (o : Option ℕ)
        → Named k (from + 1) dev nr t o
        → (((t from).i_dev == dev) && ((t from).i_num == nr)) ≡ false
        → Named (suc k) from dev nr t o
    onward none rest other = λ j p q d n. elim (Bool-cases (j == from)) [
      | inl same ↦
          let e : j ≡ from = (==_iff j from).0 same in
          let d' : (t from).i_dev ≡ dev = rw (← e) d in
          let n' : (t from).i_num ≡ nr = rw (← e) n in ground arith
      | inr later ↦ rest j (ground arith) (omega arith) d n
    ]
    onward (some i) (low, d, n) other = (omega arith, d, n)
