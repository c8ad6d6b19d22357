-- ===== src/Itable.antt =====
-- fs/inode.c: the table of the inodes in memory. The blocks of inodes are what the buffer cache
-- shows of them; no inode is locked, so nothing sleeps.
pub mod Views
pub mod Get
pub mod Sync
use rhee_creatives_linux_v.Base.{
  ℕ, zero, suc, ◌+◌, ◌-◌, ◌*◌, ◌/◌, ◌%◌, ◌^◌, ◌≤◌, ◌<◌, Option, none, some, Bool, true, false, not,
  ◌&&◌, ◌||◌, ◌==◌, ltb, leb, if◌then◌else◌, update,
}

abbrev pub nr_inode : ℕ
nr_inode = 32

-- `struct d_inode`, with which a `struct m_inode` begins.
pub record DInode : Type 0 where
  pub i_mode : ℕ
  pub i_uid : ℕ
  pub i_size : ℕ
  pub i_time : ℕ
  pub i_gid : ℕ
  pub i_nlinks : ℕ
  pub i_zone : ℕ → ℕ

pub record MInode : Type 0 where
  pub on_disk : DInode
  pub i_dev : ℕ
  pub i_num : ℕ
  pub i_count : ℕ
  pub i_dirt : Bool
  pub i_pipe : Bool

abbrev pub no_inode : MInode
no_inode = record {
  on_disk = record {
    i_mode = 0;
    i_uid = 0;
    i_size = 0;
    i_time = 0;
    i_gid = 0;
    i_nlinks = 0;
    i_zone = λ k. 0;
  };
  i_dev = 0;
  i_num = 0;
  i_count = 0;
  i_dirt = false;
  i_pipe = false;
}

-- `inode_table`, `last_allocated_inode`, and of the devices the blocks of inodes, whether they can be
-- read, and the sizes of the bitmaps in front of them.
pub record Itable : Type 0 where
  pub table : ℕ → MInode
  pub last : ℕ
  pub disk : (dev block place : ℕ) → DInode
  pub readable : (dev block : ℕ) → Bool
  pub s_imap_blocks : ℕ → ℕ
  pub s_zmap_blocks : ℕ → ℕ

pub data Result : Type 0 where
  got : ℕ → Itable → Result
  put : Itable → Result
  panicked : Result

abbrev pub set_inode : ℕ → MInode → Itable → Itable
set_inode i m s = record s { table = update s.table i m }

abbrev pub inodes_per_block : ℕ
inodes_per_block = 32

-- The block of an inode, and its place there.
abbrev pub inode_block : Itable → ℕ → ℕ → ℕ
inode_block s dev nr = 2 + s.s_imap_blocks dev + s.s_zmap_blocks dev + (nr - 1) / inodes_per_block

abbrev pub place_of : ℕ → ℕ
place_of nr = (nr - 1) % inodes_per_block

abbrev pub store : (dev block place : ℕ) → DInode → (ℕ → ℕ → ℕ → DInode) → ℕ → ℕ → ℕ → DInode
store dev block place x disk dev' block' place' =
    if (dev' == dev) && (block' == block) && (place' == place) then x else disk dev' block' place'

-- `none` is the panic.
unfoldable pub write_inode : ℕ → Itable → Option Itable
write_inode i s =
    let m = s.table i in
    let block = inode_block s m.i_dev m.i_num in
    if s.readable m.i_dev block
    then some (record s {
      table = update s.table i (record m { i_dirt = false });
      disk = store m.i_dev block (place_of m.i_num) m.on_disk s.disk;
    })
    else none

unfoldable pub read_inode : ℕ → Itable → Option Itable
read_inode i s =
    let m = s.table i in
    let block = inode_block s m.i_dev m.i_num in
    if s.readable m.i_dev block
    then some (set_inode i (record m { on_disk = s.disk m.i_dev block (place_of m.i_num) }) s)
    else none

-- The loop of `sync_inodes` over `k` entries, from the entry `i` on.
unfoldable pub sync_from : ℕ → ℕ → Itable → Option Itable
sync_from zero i s = some s
sync_from (suc k) i s =
    elim (if (s.table i).i_dirt && not (s.table i).i_pipe then write_inode i s else some s) [
      | none ↦ none
      | some u ↦ sync_from k (i + 1) u
    ]

unfoldable pub sync_inodes : Itable → Option Itable
sync_inodes s = sync_from nr_inode 0 s

-- The entries from `from` on, `k` of them, the first after the last.
unfoldable pub find_unused : ℕ → ℕ → (ℕ → MInode) → Option ℕ
find_unused zero from t = none
find_unused (suc k) from t =
    let rest = find_unused k (if leb nr_inode (from + 1) then 0 else from + 1) t in
    if (t from).i_count == 0 then some from else rest

-- The entry cleared for a new user.
abbrev pub cleared : ℕ → Itable → Itable
cleared i s = set_inode i (record no_inode { i_count = 1 }) s

unfoldable pub get_empty_inode : Itable → Result
get_empty_inode s = elim (find_unused nr_inode s.last s.table) [
  | none ↦ panicked
  | some i ↦
      let t = record s { last = i } in
      if (t.table i).i_dirt
      then elim (write_inode i t) [ none ↦ panicked | some u ↦ got i (cleared i u) ]
      else got i (cleared i t)
]

-- `page` is what `get_free_page` returns; `put` is NULL.
unfoldable pub get_pipe_inode : ℕ → Itable → Result
get_pipe_inode page s = elim (get_empty_inode s) [
  | put u ↦ put u
  | panicked ↦ panicked
  | got i u ↦
      let m = u.table i in
      if page == 0
      then put (set_inode i (record m { i_count = 0 }) u)
      else got i (
          set_inode i
            (record m { on_disk = record m.on_disk { i_size = page }; i_count = 2; i_pipe = true })
            u)
]

-- The walk of `iget` through the table.
unfoldable pub find_inode : ℕ → ℕ → ℕ → ℕ → (ℕ → MInode) → Option ℕ
find_inode zero i dev nr t = none
find_inode (suc k) i dev nr t =
    let rest = find_inode k (i + 1) dev nr t in
    if ((t i).i_dev == dev) && ((t i).i_num == nr) then some i else rest

-- `truncate` and `free_inode` on an inode without links are given by `delete`.
module _ (delete : ℕ → Itable → Result) where
  unfoldable pub iput : ℕ → Itable → Result
  iput i s =
      let m = s.table i in
      let fewer = record m { i_count = m.i_count - 1 } in
      if m.i_count == 0
      then panicked
      else if m.i_pipe
      then put (
          set_inode i
            (if not (m.i_count == 1)
              then fewer
              else record m { i_count = 0; i_dirt = false; i_pipe = false })
            s)
      else if (m.i_dev == 0) || ltb 1 m.i_count
      then put (set_inode i fewer s)
      else if m.on_disk.i_nlinks == 0
      then delete i s
      else if m.i_dirt
      then elim (write_inode i s) [
        | none ↦ panicked
        | some u ↦ put (set_inode i (record (u.table i) { i_count = m.i_count - 1 }) u)
      ]
      else put (set_inode i fewer s)

  unfoldable pub iget : ℕ → ℕ → Itable → Result
  iget dev nr s = if dev == 0 then panicked else elim (get_empty_inode s) [
    | put u ↦ panicked
    | panicked ↦ panicked
    | got empty u ↦
        let named =
          set_inode empty (record (u.table empty) { i_dev = dev % 2 ^ 16; i_num = nr % 2 ^ 16 })
            u in
        elim (find_inode nr_inode 0 dev nr u.table) [
          | some i ↦
              let more =
                set_inode i (record (u.table i) { i_count = ((u.table i).i_count + 1) % 2 ^ 16 })
                  u in
              elim (iput empty more) [ put w ↦ got i w | got j w ↦ got i w | panicked ↦ panicked ]
          | none ↦ elim (read_inode empty named) [ none ↦ panicked | some w ↦ got empty w ]
        ]
  ]
