-- ===== src/Truncate.antt =====
-- fs/truncate.c, on a device as the buffer cache shows it.
pub mod Freed
pub mod Lists
pub mod Frees
pub mod Whole
use rhee_creatives_linux_v.Base.{
  ℕ, zero, suc, ◌+◌, ◌^◌, Bool, true, false, not, ◌||◌, ◌==◌, if◌then◌else◌, update, bit_and,
}
use rhee_creatives_linux_v.Zones.{
  Device, Run, done, panicked, fault, and_then, free_block, Node, hold, brelse,
}

-- The loop over `k` words of a block, from the word `i` on.
unfoldable pub free_words : ℕ → ℕ → (ℕ → Device → Run (Unit {0})) → ℕ → Device → Run (Unit {0})
free_words zero i free block d = done tt d
free_words (suc k) i free block d =
    and_then (if d.word block i == 0 then done tt d else free (d.word block i) d)
      (λ _ d'. free_words k (i + 1) free block d')

unfoldable pub free_ind : ℕ → Device → Run (Unit {0})
free_ind block d =
    if block == 0
    then done tt d
    else and_then
        (if d.readable block
          then and_then (free_words 512 0 free_block block (hold block d))
              (λ _ d'. brelse tt block d')
          else brelse tt block (hold block d))
        (λ _ d'. free_block block d')

unfoldable pub free_dind : ℕ → Device → Run (Unit {0})
free_dind block d =
    if block == 0
    then done tt d
    else and_then
        (if d.readable block
          then and_then (free_words 512 0 free_ind block (hold block d))
              (λ _ d'. brelse tt block d')
          else brelse tt block (hold block d))
        (λ _ d'. free_block block d')

-- The loop over the direct zones, `k` of them, from the zone `i` on.
unfoldable pub free_direct : ℕ → ℕ → Node → Device → Run Node
free_direct zero i inode d = done inode d
free_direct (suc k) i inode d =
    and_then
      (if inode.i_zone i == 0
        then done inode d
        else and_then (free_block (inode.i_zone i) d)
            (λ _ d'. done (record inode { i_zone = update inode.i_zone i 0 }) d'))
      (λ inode' d'. free_direct k (i + 1) inode' d')

-- S_ISREG and S_ISDIR.
abbrev pub has_zones : ℕ → Bool
has_zones mode = (bit_and mode 0o170000 == 0o100000) || (bit_and mode 0o170000 == 0o040000)

abbrev pub without_zones : ℕ → Node → Node
without_zones now inode = record inode {
  i_zone = update (update inode.i_zone 7 0) 8 0;
  i_size = 0;
  i_dirt = true;
  i_mtime = now;
  i_ctime = now;
}

unfoldable pub truncate : ℕ → Node → Device → Run Node
truncate now inode d =
    if not (has_zones inode.i_mode)
    then done inode d
    else and_then (free_direct 7 0 inode d) (λ i d'.
      and_then (free_ind (i.i_zone 7) d') (λ _ d''.
        and_then (free_dind (i.i_zone 8) d'') (λ _ d'''. done (without_zones now i) d''')))
