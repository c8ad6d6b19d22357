-- ===== src/Imap/Laws.antt =====
-- fs/bitmap.c: a new inode, and that inode freed again.
use rhee_creatives_linux_v.Base.{
  ℕ, ◌-◌, ◌/◌, ◌^◌, ◌≤◌, ◌<◌, ◌≡◌, ◌≢◌, refl, sym, ◌∙◌, ap, none, some, true, false, not, ◌==◌, ltb,
  ◌⊎◌, inl, inr, if◌then◌else◌, update, update_self, arith, Bool-cases, Option-cases, ==_iff,
}
use rhee_creatives_linux_v.Zones.{Device, find_zero, map_bits}
use rhee_creatives_linux_v.Zones.Alloc.{FirstOf, find_zero-FirstOf}
use rhee_creatives_linux_v.Itable.{
  DInode, MInode, no_inode, Itable, nr_inode, Result, put, set_inode, iput,
}
use rhee_creatives_linux_v.Itable.Views.{Shows, Emptied, Readable, get_empty_inode-Emptied}
use rhee_creatives_linux_v.Imap.{
  Mapped, made, missing, freed, failed, numbered, new_inode, free_inode,
}

-- The last link of the inode of the entry `i` is gone.
abbrev pub unlinked : ℕ → Itable → Itable
unlinked i s =
    let m = s.table i in set_inode i (record m { on_disk = record m.on_disk { i_nlinks = 0 } }) s

-- `new_inode` makes the entry `i` of the inode `nr`, and `free_inode` undoes it.
pub record Made (dev now : ℕ) (s : Itable) (d : Device) (i : ℕ) (s' : Itable) (d' : Device)
    : Type 0 where
  pub nr : ℕ
  pub small : i < nr_inode
  pub unused : (s.table i).i_count ≡ 0
  pub first : FirstOf 8 0 d.has_imap d.imap (some nr)
  pub inside : nr ≤ d.s_ninodes
  pub entry : s'.table i ≡ numbered dev nr now (record no_inode { i_count = 1 })
  pub others : (j : ℕ) → j ≢ i → s'.table j ≡ s.table j
  pub marked : (j : ℕ) → d'.imap j ≡ (if j == nr then true else d.imap j)
  pub left : Itable
  pub freed_map : Device
  pub undone : free_inode i (unlinked i s') d' ≡ freed left freed_map
  pub as_before : (j : ℕ) → freed_map.imap j ≡ d.imap j
  pub emptied : left.table i ≡ no_inode

-- The ends of `new_inode`: an inode, or NULL with no free bit up to the number of inodes and no entry
-- in use changed; and no panic.
abbrev pub NewInode : (dev now : ℕ) → Itable → Device → Mapped → Type 0
NewInode dev now s d (made i s' d') = Made dev now s d i s' d'
NewInode dev now s d (missing s' d') =
    ((j : ℕ) → (s.table j).i_count ≢ 0 → s'.table j ≡ s.table j)
    × (d' ≡ d)
    × (FirstOf 8 0 d.has_imap d.imap none
        ⊎ ((nr : ℕ) × FirstOf 8 0 d.has_imap d.imap (some nr) × (d.s_ninodes < nr)))
NewInode dev now s d (freed s' d') = ⊥
NewInode dev now s d failed = ⊥

-- `free_inode` of an inode without links, with no second user, whose bit is set.
free_inode-frees :
    (i : ℕ) (s : Itable) (d : Device)
    → (s.table i).i_dev ≢ 0
    → (s.table i).i_count ≤ 1
    → (s.table i).on_disk.i_nlinks ≡ 0
    → d.mounted ≡ true
    → 1 ≤ (s.table i).i_num
    → (s.table i).i_num ≤ d.s_ninodes
    → d.has_imap ((s.table i).i_num / map_bits) ≡ true
    → d.imap (s.table i).i_num ≡ true
    → free_inode i s d
      ≡ freed (set_inode i no_inode s) (record d { imap = update d.imap (s.table i).i_num false })
unfolding free_inode
free_inode-frees i s d dev count links here low high there set =
    let dev_test : ((s.table i).i_dev == 0) ≡ false = ground (arith, dev) in
    let count_test : ltb 1 (s.table i).i_count ≡ false = ground arith in
    let low_test : ltb (s.table i).i_num 1 ≡ false = ground arith in
    let high_test : ltb d.s_ninodes (s.table i).i_num ≡ false = ground arith in
    rw (free_inode, dev_test, count_test, links, here, low_test, high_test, there, set) refl

module _ (delete : ℕ → Itable → Result) (dev now : ℕ) (f : ℕ → ℕ → DInode) (s : Itable) (d : Device)
    (here : d.mounted ≡ true) (zero_set : d.imap 0 ≡ true) (few : d.s_ninodes < 2 ^ 16)
    (dev_pos : 1 ≤ dev) (dev_lt : dev < 2 ^ 16) where
  on : not d.mounted ≡ false
  on = rw here

  module _ (e : Emptied f s) where
    given_back :
        (w : Itable) × (iput delete e.entry e.after ≡ put w)
        × ((j : ℕ) → (s.table j).i_count ≢ 0 → w.table j ≡ s.table j)
    unfolding iput
    given_back = (
      set_inode e.entry
          (record (e.after.table e.entry) { i_count = (e.after.table e.entry).i_count - 1 })
          e.after,
      rw (e.clear),
      λ j used.
          let ne : j ≢ e.entry = λ z. used (ap (λ k. (s.table k).i_count) z ∙ e.unused) in
          let same = e.kept j ne in ground (arith, same, ne),
    )

    module _ (nr : ℕ) (first : FirstOf 8 0 d.has_imap d.imap (some nr))
        (inside : nr ≤ d.s_ninodes) where
      abbrev made_table : Itable
      made_table = set_inode e.entry (numbered dev nr now (e.after.table e.entry)) e.after

      abbrev marked_map : Device
      marked_map = record d { imap = update d.imap nr true }

      abbrev gone : Itable
      gone = unlinked e.entry made_table

      gone_entry : gone.table e.entry ≡ (
          let m = numbered dev nr now (e.after.table e.entry) in
          record m { on_disk = record m.on_disk { i_nlinks = 0 } })
      gone_entry =
          update_self made_table.table e.entry _
          ∙ ap (λ (m : MInode). record m { on_disk = record m.on_disk { i_nlinks = 0 } })
              (update_self e.after.table e.entry _)

      nr_pos : 1 ≤ nr
      nr_pos = let (low, high, there, clear, before) = first in ground arith

      its_nr : (gone.table e.entry).i_num ≡ nr
      its_nr = ap (λ (m : MInode). m.i_num) gone_entry ∙ omega arith

      free_again :
          free_inode e.entry gone marked_map
          ≡ freed
              (set_inode e.entry no_inode gone)
              (record marked_map { imap = update marked_map.imap (gone.table e.entry).i_num false })
      free_again =
          let (low, high, there, clear, before) = first in
          free_inode-frees e.entry gone marked_map
            (λ z. absurd (omega (arith, sym (ap (λ (m : MInode). m.i_dev) gone_entry) ∙ z)))
            (omega (arith, ap (λ (m : MInode). m.i_count) gone_entry))
            (ap (λ (m : MInode). m.on_disk.i_nlinks) gone_entry) here (rw its_nr nr_pos)
            (rw its_nr inside) (rw its_nr there) (rw its_nr (update_self d.imap nr true))

      restored :
          (j : ℕ) → update (update d.imap nr true) (gone.table e.entry).i_num false j ≡ d.imap j
      restored j =
          let (low, high, there, clear, before) = first in
          rw its_nr (elim (Bool-cases (j == nr)) [
            | inl same ↦
                let at : j ≡ nr = (==_iff j nr).0 same in
                rw at (update_self (update d.imap nr true) nr false ∙ sym clear)
            | inr other ↦ ground arith
          ])

      made-Made : Made dev now s d e.entry made_table marked_map
      made-Made = record {
        nr = nr;
        small = e.small;
        unused = e.unused;
        first = first;
        inside = inside;
        entry = update_self e.after.table e.entry _ ∙ ap (numbered dev nr now) e.clear;
        others = λ j ne. ground (arith, e.kept j ne);
        marked = λ j. refl;
        left = set_inode e.entry no_inode gone;
        freed_map = record marked_map {
          imap = update marked_map.imap (gone.table e.entry).i_num false;
        };
        undone = free_again;
        as_before = restored;
        emptied = update_self gone.table e.entry no_inode;
      }

    outcome : NewInode dev now s d (new_inode delete dev now s d)
    unfolding new_inode
    outcome =
        let (w, back, others) = given_back in
        elim (Option-cases (find_zero 8 0 d.has_imap d.imap)) [
          | inl full ↦
              let all : FirstOf 8 0 d.has_imap d.imap none =
                rw full at (find_zero-FirstOf 8 0 d.has_imap d.imap) in
              rw (new_inode, e.runs, on, full, back) (others, refl, inl all)
          | inr (nr, found) ↦
              let first : FirstOf 8 0 d.has_imap d.imap (some nr) =
                rw found at (find_zero-FirstOf 8 0 d.has_imap d.imap) in
              elim (Bool-cases (ltb d.s_ninodes nr)) [
                | inl beyond ↦
                    rw (new_inode, e.runs, on, found, beyond, back)
                      (others, refl, inr (nr, first, ground arith))
                | inr within ↦
                    rw (new_inode, e.runs, on, found, within) (made-Made nr first (ground arith))
              ]
        ]

  -- When the table and the blocks show the inodes `f`, all blocks of inodes can be read and an entry of
  -- the table has no user, on a mounted device whose first bit of the map of inodes is set and with
  -- fewer than 2 ^ 16 inodes, and a device number from 1 and below 2 ^ 16: `new_inode` does not panic.
  -- It makes the inode of the first free bit, with one user, one link, the current time and else no
  -- contents, in an entry without a user, and changes no other entry and no other bit; when its link
  -- count is set to 0, `free_inode` clears the entry and makes the map what it was. Or it returns
  -- NULL, when no bit is free or the first free one is past the number of inodes, and every entry with
  -- a user and the device are as before.
  pub new_inode-NewInode :
      Shows s f
      → Readable s
      → s.last < nr_inode
      → (k : ℕ) → k < nr_inode
      → (s.table k).i_count ≡ 0
      → NewInode dev now s d (new_inode delete dev now s d)
  new_inode-NewInode shows readable in_table k k_lt free =
      outcome (get_empty_inode-Emptied f s shows readable in_table k k_lt free)
