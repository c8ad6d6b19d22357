-- ===== src/Itable/Get.antt =====
-- fs/inode.c: `iget` finds or reads the inode that it is asked for.
use rhee_creatives_linux_v.Base.{
  ℕ, ◌+◌, ◌-◌, ◌%◌, ◌^◌, ◌≤◌, ◌<◌, ◌≡◌, ◌≢◌, refl, sym, ◌∙◌, ap, ap₂, inl, inr, none, some, false,
  ◌==◌, arith, Bool-cases, Option-cases, ==_iff,
}
use rhee_creatives_linux_v.Itable.{
  DInode, MInode, no_inode, Itable, nr_inode, Result, got, put, set_inode, inode_block, read_inode,
  iput, find_inode, iget,
}
use rhee_creatives_linux_v.Itable.Views.{
  stored_at, Shows, Unique, Readable, Emptied, get_empty_inode-Emptied, Named, find_inode-Named,
}

-- An entry with the same inode.
abbrev Same : MInode → MInode → Type 0
Same m n =
    (n.on_disk ≡ m.on_disk) × (n.i_dev ≡ m.i_dev) × (n.i_num ≡ m.i_num) × (n.i_dirt ≡ m.i_dirt)

Shows-Same :
    (f : ℕ → ℕ → DInode) (s t : Itable)
    → ((j : ℕ) → Same (s.table j) (t.table j))
    → ((dev nr : ℕ) → stored_at t dev nr ≡ stored_at s dev nr)
    → Shows s f
    → Shows t f
Shows-Same f s t same disk v = record {
  entries = λ i low ne.
      let (contents, dev, num, dirt) = same i in
      contents ∙ v.entries i low (λ z. ne (dev ∙ z)) ∙ ap₂ f (sym dev) (sym num);
  numbered =
      λ i low ne. let (_, dev, num, _) = same i in rw num (v.numbered i low (λ z. ne (dev ∙ z)));
  stored = λ dev nr ne pos_nr all.
      disk dev nr
      ∙ v.stored dev nr ne pos_nr λ i low d n.
        let (contents, dev', num', dirt) = same i in sym dirt ∙ all i low (dev' ∙ d) (num' ∙ n);
}

Unique-Same : (s t : Itable) → ((j : ℕ) → Same (s.table j) (t.table j)) → Unique s → Unique t
Unique-Same s t same v i j low_i low_j ne dev num =
    let (_, dev_i, num_i, _) = same i in
    let (_, dev_j, num_j, _) = same j in
    v i j low_i low_j (λ z. ne (dev_i ∙ z)) (sym dev_i ∙ dev ∙ dev_j) (sym num_i ∙ num ∙ num_j)

-- What `iget` gives: the entry that holds the inode, with one user more. The entries of other users
-- are as before.
pub record Gotten (f : ℕ → ℕ → DInode) (delete : ℕ → Itable → Result) (dev nr : ℕ) (s : Itable)
    : Type 0 where
  pub entry : ℕ
  pub after : Itable
  pub runs : iget delete dev nr s ≡ got entry after
  pub small : entry < nr_inode
  pub its_dev : (after.table entry).i_dev ≡ dev
  pub its_num : (after.table entry).i_num ≡ nr
  pub contents : (after.table entry).on_disk ≡ f dev nr
  pub users : (after.table entry).i_count ≡ ((s.table entry).i_count + 1) % 2 ^ 16
  pub kept : (j : ℕ) → (s.table j).i_count ≢ 0 → j ≢ entry → after.table j ≡ s.table j
  pub shows : Shows after f
  pub unique : Unique after

module _ (f : ℕ → ℕ → DInode) (delete : ℕ → Itable → Result) (dev nr : ℕ) (s : Itable)
    (unique : Unique s) (device : dev ≢ 0) (dev_lt : dev < 2 ^ 16) (nr_lt : nr < 2 ^ 16)
    (pos_nr : 1 ≤ nr) where
  module _ (e : Emptied f s) where
    abbrev u : Itable
    u = e.after

    dev_test : (dev == 0) ≡ false
    dev_test = ground arith

    no_dev : (u.table e.entry).i_dev ≡ 0
    no_dev = ap (λ (m : MInode). m.i_dev) e.clear

    emptied-Unique : Unique u
    emptied-Unique i j low_i low_j ne d n =
        let i_ne : i ≢ e.entry = λ z. ne (ap (λ k. (u.table k).i_dev) z ∙ no_dev) in
        let j_ne : j ≢ e.entry = λ z. ne (d ∙ ap (λ k. (u.table k).i_dev) z ∙ no_dev) in
        let old_i = e.kept i i_ne in
        let old_j = e.kept j j_ne in
        unique i j low_i low_j (λ z. ne (ap (λ (m : MInode). m.i_dev) old_i ∙ z))
          (ap (λ (m : MInode). m.i_dev) (sym old_i) ∙ d ∙ ap (λ (m : MInode). m.i_dev) old_j)
          (ap (λ (m : MInode). m.i_num) (sym old_i) ∙ n ∙ ap (λ (m : MInode). m.i_num) old_j)

    -- The inode has the entry `i`.
    module _ (i : ℕ) (i_lt : i < nr_inode) (d_eq : (u.table i).i_dev ≡ dev)
        (n_eq : (u.table i).i_num ≡ nr)
        (found : find_inode nr_inode 0 dev nr u.table ≡ some i) where
      apart : i ≢ e.entry
      apart z = device (sym d_eq ∙ ap (λ k. (u.table k).i_dev) z ∙ no_dev)

      abbrev more : Itable
      more = set_inode i (record (u.table i) { i_count = ((u.table i).i_count + 1) % 2 ^ 16 }) u

      abbrev final : Itable
      final =
          set_inode e.entry
            (record (more.table e.entry) { i_count = (more.table e.entry).i_count - 1 }) more

      emptied_entry : more.table e.entry ≡ record no_inode { i_count = 1 }
      emptied_entry = let ne : (e.entry == i) ≡ false = ground (arith, apart) in rw ne e.clear

      given_back : iput delete e.entry more ≡ put final
      unfolding iput
      given_back = rw emptied_entry

      final-Same : (j : ℕ) → Same (u.table j) (final.table j)
      final-Same j = (ground arith, ground arith, ground arith, ground arith)

      old_entry : u.table i ≡ s.table i
      old_entry = e.kept i apart

      final_at : final.table i ≡ record (u.table i) { i_count = ((u.table i).i_count + 1) % 2 ^ 16 }
      final_at = ground (arith, apart)

      cached : Gotten f delete dev nr s
      unfolding iget
      cached = record {
        entry = i;
        after = final;
        runs = rw (iget, dev_test, e.runs, found, given_back);
        small = i_lt;
        its_dev = (final-Same i).1 ∙ d_eq;
        its_num = (final-Same i).2 ∙ n_eq;
        contents =
            (final-Same i).0
            ∙ e.shows.entries i i_lt (λ z. device (sym d_eq ∙ z))
            ∙ ap₂ f d_eq n_eq;
        users =
            ap (λ (m : MInode). m.i_count) final_at
            ∙ ap (λ (m : MInode). (m.i_count + 1) % 2 ^ 16) old_entry;
        kept = λ j used ne.
            let ne' : j ≢ e.entry = λ z. used (ap (λ k. (s.table k).i_count) z ∙ e.unused) in
            let same : final.table j ≡ u.table j = ground (arith, ne, ne') in same ∙ e.kept j ne';
        shows = Shows-Same f u final final-Same (λ _ _. refl) e.shows;
        unique = Unique-Same u final final-Same emptied-Unique;
      }

    -- It has none, and is read into the empty one.
    module _ (absent : Named nr_inode 0 dev nr u.table none)
        (found : find_inode nr_inode 0 dev nr u.table ≡ none) where
      abbrev named : Itable
      named =
          set_inode e.entry (record (u.table e.entry) { i_dev = dev % 2 ^ 16; i_num = nr % 2 ^ 16 })
            u

      abbrev filled : MInode
      filled = record (named.table e.entry) {
        on_disk = stored_at named (named.table e.entry).i_dev (named.table e.entry).i_num;
      }

      abbrev loaded : Itable
      loaded = set_inode e.entry filled named

      read_in : read_inode e.entry named ≡ some loaded
      unfolding read_inode
      read_in = rw (
          e.readable (named.table e.entry).i_dev
            (inode_block named (named.table e.entry).i_dev (named.table e.entry).i_num))

      its_name : ((loaded.table e.entry).i_dev ≡ dev) × ((loaded.table e.entry).i_num ≡ nr)
      its_name = (ground arith, ground arith)

      on_device : stored_at u dev nr ≡ f dev nr
      on_device =
          e.shows.stored dev nr device pos_nr
            λ i low d n. absurd (absent i (omega arith) (omega arith) d n)

      its_contents : (loaded.table e.entry).on_disk ≡ f dev nr
      its_contents =
          let d : dev % 2 ^ 16 ≡ dev = omega arith in
          let n : nr % 2 ^ 16 ≡ nr = omega arith in
          let c : (loaded.table e.entry).on_disk ≡ stored_at u (dev % 2 ^ 16) (nr % 2 ^ 16) =
            ground arith in
          c ∙ ap₂ (stored_at u) d n ∙ on_device

      other_entry : (j : ℕ) → j ≢ e.entry → loaded.table j ≡ u.table j
      other_entry j ne = ground arith

      loaded-Shows : Shows loaded f
      loaded-Shows = record {
        entries = λ j low ne. elim (Bool-cases (j == e.entry)) [
          | inl same ↦
              let z : j ≡ e.entry = (==_iff _ _).0 same in
              let (d, n) = its_name in
              ap (λ k. (loaded.table k).on_disk) z
              ∙ its_contents
              ∙ ap₂ f (sym (ap (λ k. (loaded.table k).i_dev) z ∙ d))
                  (sym (ap (λ k. (loaded.table k).i_num) z ∙ n))
          | inr other ↦
              let o = other_entry j (λ z. ground arith) in
              ap (λ (m : MInode). m.on_disk) o
              ∙ e.shows.entries j low (λ z. ne (ap (λ (m : MInode). m.i_dev) o ∙ z))
              ∙ ap₂ f (ap (λ (m : MInode). m.i_dev) (sym o)) (ap (λ (m : MInode). m.i_num) (sym o))
        ];
        numbered = λ j low ne. elim (Bool-cases (j == e.entry)) [
          | inl same ↦
              let z : j ≡ e.entry = (==_iff _ _).0 same in
              let n : (loaded.table j).i_num ≡ nr =
                ap (λ k. (loaded.table k).i_num) z ∙ its_name.1 in
              rw n pos_nr
          | inr other ↦
              let o = other_entry j (λ z. ground arith) in
              let n : (loaded.table j).i_num ≡ (u.table j).i_num = ap (λ (m : MInode). m.i_num) o in
              rw n (e.shows.numbered j low (λ z. ne (ap (λ (m : MInode). m.i_dev) o ∙ z)))
        ];
        stored = λ dv nm ne pos_nm all. e.shows.stored dv nm ne pos_nm λ j low d n.
            let away : j ≢ e.entry = λ z. ne (sym d ∙ ap (λ k. (u.table k).i_dev) z ∙ no_dev) in
            let o = other_entry j away in
            ap (λ (m : MInode). m.i_dirt) (sym o)
            ∙ all j low (ap (λ (m : MInode). m.i_dev) o ∙ d) (ap (λ (m : MInode). m.i_num) o ∙ n);
      }

      loaded-Unique : Unique loaded
      loaded-Unique i j low_i low_j ne d n = elim (Bool-cases (i == e.entry)) [
        | inl here ↦ elim (Bool-cases (j == e.entry)) [
          | inl there ↦ (==_iff _ _).0 here ∙ sym ((==_iff _ _).0 there)
          | inr other ↦
              absurd (clash j low_j i ((==_iff _ _).0 here) (λ z. ground arith) (sym d) (sym n))
        ]
        | inr away ↦ elim (Bool-cases (j == e.entry)) [
          | inl there ↦ absurd (clash i low_i j ((==_iff _ _).0 there) (λ z. ground arith) d n)
          | inr other ↦
              let o = other_entry i (λ z. ground arith) in
              let p = other_entry j (λ z. ground arith) in
              emptied-Unique i j low_i low_j (λ z. ne (ap (λ (m : MInode). m.i_dev) o ∙ z))
                (ap (λ (m : MInode). m.i_dev) (sym o) ∙ d ∙ ap (λ (m : MInode). m.i_dev) p)
                (ap (λ (m : MInode). m.i_num) (sym o) ∙ n ∙ ap (λ (m : MInode). m.i_num) p)
        ]
      ]
        where
          clash :
              (k : ℕ)
              → k < nr_inode
              → (l : ℕ) → l ≡ e.entry
              → k ≢ e.entry
              → (loaded.table k).i_dev ≡ (loaded.table l).i_dev
              → (loaded.table k).i_num ≡ (loaded.table l).i_num
              → ⊥
          clash k low l l_is ne d n =
              let o = other_entry k ne in
              absent k (omega arith) (omega arith)
                (ap (λ (m : MInode). m.i_dev) (sym o)
                  ∙ d
                  ∙ ap (λ p. (loaded.table p).i_dev) l_is
                  ∙ its_name.0)
                (ap (λ (m : MInode). m.i_num) (sym o)
                  ∙ n
                  ∙ ap (λ p. (loaded.table p).i_num) l_is
                  ∙ its_name.1)

      fetched : Gotten f delete dev nr s
      unfolding iget
      fetched = record {
        entry = e.entry;
        after = loaded;
        runs = rw (iget, dev_test, e.runs, found, read_in);
        small = e.small;
        its_dev = its_name.0;
        its_num = its_name.1;
        contents = its_contents;
        users = ground (arith, e.clear, e.unused);
        kept = λ j used ne. other_entry j ne ∙ e.kept j ne;
        shows = loaded-Shows;
        unique = loaded-Unique;
      }

    gotten : Gotten f delete dev nr s
    gotten =
        let outcome = find_inode-Named nr_inode 0 dev nr u.table in
        elim (Option-cases (find_inode nr_inode 0 dev nr u.table)) [
          | inl none_there ↦
              let absent : Named nr_inode 0 dev nr u.table none = rw none_there at outcome in
              fetched absent none_there
          | inr (i, there) ↦
              let (low, d, n) = (the_entry i (rw there at outcome)) in cached i low d n there
        ]
      where
        the_entry :
            (i : ℕ)
            → Named nr_inode 0 dev nr u.table (some i)
            → (i < nr_inode) × ((u.table i).i_dev ≡ dev) × ((u.table i).i_num ≡ nr)
        the_entry i (low, d, n) = (omega (arith, low), d, n)

  -- With an entry that has no user, `iget` ends with an entry that holds the inode asked for, whatever
  -- was in memory: the inodes that the table and the devices show are as before, no inode gets a
  -- second entry, and no other user loses its entry.
  pub iget-Gotten :
      Shows s f
      → Readable s
      → s.last < nr_inode
      → (k : ℕ) → k < nr_inode
      → (s.table k).i_count ≡ 0
      → Gotten f delete dev nr s
  iget-Gotten shows readable in_table k k_lt free =
      gotten (get_empty_inode-Emptied f s shows readable in_table k k_lt free)
