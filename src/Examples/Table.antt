-- ===== src/Examples/Table.antt =====
-- fs/inode.c and fs/bitmap.c at a small table of inodes.
use rhee_creatives_linux_v.Base.{
  ℕ, ◌≤◌, ◌≡◌, ◌≢◌, refl, some, true, ◌&&◌, if◌then◌else◌, ◌==◌, Bool-cases, inl, inr, arith,
}
use rhee_creatives_linux_v.Itable.{DInode, no_inode, Itable, nr_inode, sync_inodes, panicked}
use rhee_creatives_linux_v.Itable.Views.{Shows, Unique, stored_at}
use rhee_creatives_linux_v.Itable.Get.{Gotten, iget-Gotten}
use rhee_creatives_linux_v.Itable.Sync.{Synced, sync_inodes-Stored}
use rhee_creatives_linux_v.Imap.{new_inode}
use rhee_creatives_linux_v.Imap.Laws.{NewInode, new_inode-NewInode}
use rhee_creatives_linux_v.Examples.Disk.{device}

abbrev blank_inode : DInode
blank_inode = no_inode.on_disk

-- Changed in memory and not yet written.
abbrev longer : DInode
longer = record blank_inode { i_size = 9; i_nlinks = 1 }

-- The inode 5 of device 3 is in use and dirty.
abbrev one_inode : Itable
one_inode = record {
  table = λ i.
      if i == 0
      then record no_inode { on_disk = longer; i_dev = 3; i_num = 5; i_count = 1; i_dirt = true }
      else no_inode;
  last = 31;
  disk = λ dev block place. blank_inode;
  readable = λ dev block. true;
  s_imap_blocks = λ dev. 1;
  s_zmap_blocks = λ dev. 2;
}

abbrev shown : ℕ → ℕ → DInode
shown dev nr = if (dev == 3) && (nr == 5) then longer else blank_inode

one_inode-Shows : Shows one_inode shown
one_inode-Shows = record {
  entries = λ i low ne. elim (Bool-cases (i == 0)) [
    | inl first ↦ rw first refl
    | inr other ↦ absurd (ground arith)
  ];
  numbered = λ i low ne. ground arith;
  stored = λ dev nr ne pos_nr all. elim (Bool-cases ((dev == 3) && (nr == 5))) [
    | inl own ↦ absurd (ground (arith, all 0 (omega arith)))
    | inr other ↦ rw other refl
  ];
}

one_inode-Unique : Unique one_inode
one_inode-Unique i j low_i low_j ne d n = ground arith

iget-Gotten_example : Gotten shown (λ i s. panicked) 3 7 one_inode
iget-Gotten_example =
    iget-Gotten shown (λ i s. panicked) 3 7 one_inode one_inode-Unique (omega arith) (omega arith)
      (omega arith) (omega arith) one_inode-Shows (λ dev block. refl) (omega arith) 1 (omega arith)
      refl

new_inode-NewInode_example :
    NewInode 3 1000 one_inode device (new_inode (λ i s. panicked) 3 1000 one_inode device)
new_inode-NewInode_example =
    new_inode-NewInode (λ i s. panicked) 3 1000 shown one_inode device refl refl (omega arith)
      (omega arith) (omega arith) one_inode-Shows (λ dev block. refl) (omega arith) 1 (omega arith)
      refl

sync_inodes-Stored_example :
    (t : Itable) × (sync_inodes one_inode ≡ some t)
    × Synced shown nr_inode one_inode t
    × ((dev nr : ℕ) → dev ≢ 0 → 1 ≤ nr → stored_at t dev nr ≡ shown dev nr)
sync_inodes-Stored_example =
    sync_inodes-Stored shown one_inode one_inode-Shows (λ dev block. refl)
      (λ i pipe. absurd (ground arith))
