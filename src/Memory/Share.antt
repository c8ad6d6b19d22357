-- ===== src/Memory/Share.antt =====
-- mm/memory.c: `copy_page_tables`, by which `fork` shares all pages, and `free_page_tables`.
pub mod Entries
use rhee_creatives_linux_v.Base.{
  ℕ, zero, suc, ◌+◌, ◌-◌, ◌*◌, ◌/◌, ◌%◌, ◌^◌, Option, none, some, Bool, true, false, ◌&&◌, ◌||◌,
  not, if◌then◌else◌, ◌==◌, ltb, leb, update, bit_or,
}
use rhee_creatives_linux_v.Base.Bits.{without_bit}
use rhee_creatives_linux_v.Memory.{
  Mem, low_mem, page_size, map_nr, frame_of, present, dir_index, get_free_page, free_page, store,
}

-- `this_page &= ~2`.
abbrev pub read_only : ℕ → ℕ
read_only w = without_bit 32 w 1

-- One round of the inner loop: the entries with word indices `f` and `t`.
unfoldable pub copy_entry : ℕ → ℕ → Mem → Mem
copy_entry f t m =
    let this_page = read_only (m.word f) in
    if not (present (m.word f))
    then m
    else if ltb low_mem this_page
    then record {
      mem_map = update m.mem_map (map_nr this_page) ((m.mem_map (map_nr this_page) + 1) % 2 ^ 16);
      word = update (update m.word t this_page) f this_page;
    }
    else store t this_page m

-- `for ( ; nr-- > 0 ; from_page_table++,to_page_table++)`.
unfoldable pub copy_entries : ℕ → ℕ → ℕ → Mem → Mem
copy_entries zero f t m = m
copy_entries (suc nr) f t m = copy_entries nr (f + 1) (t + 1) (copy_entry f t m)

pub data Copied : Type 0 where
  copied : Mem → Copied
  -- `return -1`: out of memory.
  no_memory : Mem → Copied
  panicked : Copied

-- `(from==0)?0xA0:1024`.
abbrev pub entries_of : Bool → ℕ
entries_of kernel = if kernel then 0xA0 else 1024

-- The outer loop, `kernel` for `from == 0`, over the directory entries from `fd` and `td` on.
pub copy_dirs : ℕ → Bool → ℕ → ℕ → Mem → Copied
copy_dirs zero kernel fd td m = Copied.copied m
copy_dirs (suc size) kernel fd td m =
    let skip = copy_dirs size kernel (fd + 1) (td + 1) m in
    let (page, m1) = get_free_page m in
    let filled = copy_dirs size kernel (fd + 1) (td + 1) (
      copy_entries (entries_of kernel) (frame_of (m.word fd) / 4) (page / 4)
        (store td (bit_or page 7) m1)) in
    if present (m.word td)
    then Copied.panicked
    else if not (present (m.word fd))
    then skip
    else if page == 0
    then Copied.no_memory m1
    else filled

-- `(size+0x3fffff) >> 22`.
abbrev pub dirs_of : ℕ → ℕ
dirs_of size = (size + 0x3fffff) % 2 ^ 32 / 2 ^ 22

pub copy_page_tables : ℕ → ℕ → ℕ → Mem → Copied
unfolding copy_dirs
copy_page_tables from to size m =
    if not (from % 2 ^ 22 == 0) || not (to % 2 ^ 22 == 0)
    then Copied.panicked
    else copy_dirs (dirs_of size) (from == 0) (dir_index from) (dir_index to) m

-- `free_page_tables`: the inner loop from the entry with word index `p` on; `none` is a panic.
pub free_entries : ℕ → ℕ → Mem → Option Mem
free_entries zero p m = some m
free_entries (suc nr) p m =
    elim (if present (m.word p) then free_page (frame_of (m.word p)) m else some m) [
      | none ↦ none
      | some m' ↦ free_entries nr (p + 1) (store p 0 m')
    ]

-- The page of the table itself, and its directory entry.
abbrev pub free_table : ℕ → Mem → Option Mem
free_table d m = elim (free_page (frame_of (m.word d)) m) [
  | none ↦ none
  | some m' ↦ some (store d 0 m')
]

pub free_dirs : ℕ → ℕ → Mem → Option Mem
free_dirs zero d m = some m
free_dirs (suc size) d m =
    let skip = free_dirs size (d + 1) m in
    if not (present (m.word d))
    then skip
    else elim (free_entries 1024 (frame_of (m.word d) / 4) m) [
      | none ↦ none
      | some m1 ↦ elim (free_table d m1) [ none ↦ none | some m2 ↦ free_dirs size (d + 1) m2 ]
    ]

pub free_page_tables : ℕ → ℕ → Mem → Option Mem
unfolding free_dirs free_entries
free_page_tables from size m =
    if not (from % 2 ^ 22 == 0) || from == 0
    then none
    else free_dirs (dirs_of size) (dir_index from) m
