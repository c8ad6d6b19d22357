-- ===== src/Zones.antt =====
-- fs/bitmap.c, fs/inode.c and fs/truncate.c: the zones of a device. A block is 512 words of 16 bits, and the
-- buffer cache is what it shows: the contents of the blocks, whether a block can be read, and how
-- many users the buffer of a block has.
pub mod Alloc
pub mod Map
pub mod Indirect
pub mod Blocks
use rhee_creatives_linux_v.Base.{
  ℕ, zero, suc, ◌+◌, ◌-◌, ◌*◌, ◌/◌, ◌%◌, ◌^◌, ◌≤◌, ◌<◌, Option, none, some, Bool, true, false, not,
  ◌&&◌, ◌||◌, ◌==◌, ltb, leb, if◌then◌else◌, update, bit_and,
}

-- A mounted device: its super block, the bits of `s_zmap` and `s_imap` in one row each, which of their
-- blocks there are, and its blocks. `word` is what `bread` shows, from the buffer of a block if it has
-- one; `disk_word` is what the disk has, which shows again when the buffer is no longer up to date.
pub record Device : Type 0 where
  pub mounted : Bool
  pub s_firstdatazone : ℕ
  pub s_nzones : ℕ
  pub s_ninodes : ℕ
  pub has_zmap : ℕ → Bool
  pub has_imap : ℕ → Bool
  pub zmap : ℕ → Bool
  pub imap : ℕ → Bool
  pub word : ℕ → ℕ → ℕ
  pub readable : ℕ → Bool
  pub users : ℕ → Option ℕ
  pub disk_word : ℕ → ℕ → ℕ
  pub disk_readable : ℕ → Bool

-- The end of a function; `fault` is an access through NULL.
pub data Run (A : Type 0) : Type 0 where
  done : A → Device → Run A
  panicked : Run A
  fault : Run A

abbrev pub and_then : {A B : Type 0} → Run A → (A → Device → Run B) → Run B
and_then (done a d) f = f a d
and_then panicked f = panicked
and_then fault f = fault

-- The bits of one block of a bitmap.
abbrev pub map_bits : ℕ
map_bits = 8192

-- The first zero of the last `k` bits before the end of a block of the map, which is the bit `i`.
unfoldable pub find_first_zero : ℕ → ℕ → (ℕ → Bool) → Option ℕ
find_first_zero zero i map = none
find_first_zero (suc k) i map =
    let rest = find_first_zero k (i + 1) map in if map i then rest else some i

-- The loop over the blocks of a map, from the block `i` on: the bit in the whole map.
unfoldable pub find_zero : ℕ → ℕ → (ℕ → Bool) → (ℕ → Bool) → Option ℕ
find_zero zero i present map = none
find_zero (suc k) i present map =
    let rest = find_zero k (i + 1) present map in
    if present i
    then elim (find_first_zero map_bits (i * map_bits) map) [ none ↦ rest | some j ↦ some j ]
    else rest

-- A user more, for one `getblk`.
abbrev pub one_more : Option ℕ → ℕ
one_more none = 1
one_more (some n) = (n + 1) % 2 ^ 8

-- The buffer of a block is clean and not up to date: the disk shows again.
abbrev pub dropped : ℕ → Device → Device
dropped block d = record d {
  word = update d.word block (d.disk_word block);
  readable = update d.readable block (d.disk_readable block);
}

-- The end of `free_block`, on the bit of the block.
abbrev pub clear_zone : ℕ → Device → Run (Unit {0})
clear_zone bit d =
    if not (d.has_zmap (bit / map_bits))
    then fault
    else if not (d.zmap bit)
    then panicked
    else done tt (record d { zmap = update d.zmap bit false })

unfoldable pub free_block : ℕ → Device → Run (Unit {0})
free_block block d =
    let bit = block + 1 - d.s_firstdatazone in
    if not d.mounted
    then panicked
    else if ltb block d.s_firstdatazone || leb d.s_nzones block
    then panicked
    else elim (d.users block) [
      | none ↦ clear_zone bit d
      | some n ↦
          if one_more (some n) == 1
          then clear_zone bit (dropped block d)
          else done tt (record d { users = update d.users block (some (one_more (some n))) })
    ]

-- `getblk`, `clear_block` and `brelse` on a new zone.
abbrev pub wiped : ℕ → ℕ → Device → Device
wiped bit block d = record d {
  zmap = update d.zmap bit true;
  word = update d.word block (λ i. 0);
  readable = update d.readable block true;
  users = update d.users block (some (one_more (d.users block) - 1));
}

-- The zone, or 0.
unfoldable pub new_block : Device → Run ℕ
new_block d = if not d.mounted then panicked else elim (find_zero 8 0 d.has_zmap d.zmap) [
  | none ↦ done 0 d
  | some bit ↦
      let block = bit + d.s_firstdatazone - 1 in
      if leb d.s_nzones block
      then done 0 (record d { zmap = update d.zmap bit true })
      else if not (one_more (d.users block) == 1)
      then panicked
      else done block (wiped bit block d)
]

-- The fields of `struct m_inode` that these functions use.
pub record Node : Type 0 where
  pub i_mode : ℕ
  pub i_size : ℕ
  pub i_zone : ℕ → ℕ
  pub i_dirt : Bool
  pub i_mtime : ℕ
  pub i_ctime : ℕ

-- The zone `k` of the inode, made if it is asked for and there is none. The test is on the 16 bits
-- that are kept.
unfoldable pub own_zone : Bool → ℕ → ℕ → Node → Device → Run Node
own_zone create now k inode d =
    if create && inode.i_zone k == 0
    then and_then (new_block d) (λ block d'.
      let i : Node = record inode { i_zone = update inode.i_zone k (block % 2 ^ 16) } in
      done (if block % 2 ^ 16 == 0 then i else record i { i_dirt = true; i_ctime = now }) d')
    else done inode d

-- `bread` takes a user more; when the block cannot be read, it is given back.
abbrev pub hold : ℕ → Device → Device
hold block d = record d { users = update d.users block (some (one_more (d.users block))) }

abbrev pub brelse : {A : Type 0} → A → ℕ → Device → Run A
brelse a block d = elim (d.users block) [
  | none ↦ fault
  | some zero ↦ panicked
  | some (suc n) ↦ done a (record d { users = update d.users block (some n) })
]

-- The word `k` of a block, made if it is asked for and is 0; 0 when the block cannot be read.
unfoldable pub ind_zone : Bool → ℕ → ℕ → Device → Run ℕ
ind_zone create block k d =
    let held = hold block d in
    if not (d.readable block)
    then brelse 0 block held
    else if create && d.word block k == 0
    then and_then (new_block held) (λ i d'. brelse i block (
        if i == 0
        then d'
        else record d' { word = update d'.word block (update (d'.word block) k (i % 2 ^ 16)) }))
    else brelse (d.word block k) block held

unfoldable pub bmap_block : Bool → ℕ → ℕ → Node → Device → Run (ℕ × Node)
bmap_block create now block inode d =
    if leb (7 + 512 + 512 * 512) block
    then panicked
    else if ltb block 7
    then and_then (own_zone create now block inode d) (λ i d'. done (i.i_zone block, i) d')
    else if ltb (block - 7) 512
    then and_then (own_zone create now 7 inode d) (λ i d'.
      if i.i_zone 7 == 0
      then done (0, i) d'
      else and_then (ind_zone create (i.i_zone 7) (block - 7) d') (λ z d''. done (z, i) d''))
    else and_then (own_zone create now 8 inode d) (λ i d'.
      if i.i_zone 8 == 0
      then done (0, i) d'
      else and_then (ind_zone create (i.i_zone 8) ((block - 7 - 512) / 512) d') (λ z d''.
        if z == 0
        then done (0, i) d''
        else and_then (ind_zone create z (bit_and (block - 7 - 512) 511) d'')
            (λ y d'''. done (y, i) d''')))

unfoldable pub bmap : ℕ → ℕ → Node → Device → Run (ℕ × Node)
bmap now block inode d = bmap_block false now block inode d

unfoldable pub create_block : ℕ → ℕ → Node → Device → Run (ℕ × Node)
create_block now block inode d = bmap_block true now block inode d
