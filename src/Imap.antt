-- ===== src/Imap.antt =====
-- fs/bitmap.c: `new_inode` and `free_inode`, on the table of inodes and the map of a device.
pub mod Laws
use rhee_creatives_linux_v.Base.{
  ℕ, ◌+◌, ◌-◌, ◌*◌, ◌/◌, ◌%◌, ◌^◌, Option, none, some, Bool, true, false, not, ◌&&◌, ◌||◌, ◌==◌,
  ltb, leb, if◌then◌else◌, update,
}
use rhee_creatives_linux_v.Zones.{Device, find_zero, map_bits}
use rhee_creatives_linux_v.Itable.{
  MInode, no_inode, Itable, Result, got, put, panicked, set_inode, get_empty_inode, iput,
}

-- The inode, or NULL, or nothing to return; the device is the one that the call finds.
pub data Mapped : Type 0 where
  made : ℕ → Itable → Device → Mapped
  missing : Itable → Device → Mapped
  freed : Itable → Device → Mapped
  failed : Mapped

abbrev pub numbered : ℕ → ℕ → ℕ → MInode → MInode
numbered dev nr now m = record m {
  on_disk = record m.on_disk { i_nlinks = 1; i_time = now };
  i_count = 1;
  i_dev = dev % 2 ^ 16;
  i_dirt = true;
  i_num = nr % 2 ^ 16;
}

unfoldable pub free_inode : ℕ → Itable → Device → Mapped
free_inode i s d =
    let m = s.table i in
    let nr = m.i_num in
    if m.i_dev == 0
    then freed (set_inode i no_inode s) d
    else if ltb 1 m.i_count
    then failed
    else if not (m.on_disk.i_nlinks == 0)
    then failed
    else if not d.mounted
    then failed
    else if ltb nr 1 || ltb d.s_ninodes nr
    then failed
    else if not (d.has_imap (nr / map_bits))
    then failed
    else if not (d.imap nr)
    then failed
    else freed (set_inode i no_inode s) (record d { imap = update d.imap nr false })

-- `now` is CURRENT_TIME.
unfoldable pub new_inode : (ℕ → Itable → Result) → (dev now : ℕ) → Itable → Device → Mapped
new_inode delete dev now s d = elim (get_empty_inode s) [
  | put u ↦ missing u d
  | panicked ↦ failed
  | got i u ↦
      let give_up : Mapped = elim (iput delete i u) [
        | got j w ↦ missing w d
        | put w ↦ missing w d
        | panicked ↦ failed
      ] in
      if not d.mounted then failed else elim (find_zero 8 0 d.has_imap d.imap) [
        | none ↦ give_up
        | some nr ↦
            if ltb d.s_ninodes nr
            then give_up
            else made i (set_inode i (numbered dev nr now (u.table i)) u)
                (record d { imap = update d.imap nr true })
      ]
]
