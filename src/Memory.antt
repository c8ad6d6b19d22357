-- ===== src/Memory.antt =====
-- mm/memory.c: the page allocator with its reference counts, page tables, copy on write.
-- Physical memory is a table of 32-bit words: the word at byte address `a` has index `a / 4`, and
-- the page directory stands at address 0.
pub mod Alloc
pub mod Write
pub mod Share
pub mod Missing
use rhee_creatives_linux_v.Base.{
  ℕ, zero, suc, ◌+◌, ◌-◌, ◌*◌, ◌/◌, ◌%◌, ◌^◌, Option, none, some, Bool, true, false, ◌&&◌, ◌||◌,
  not, if◌then◌else◌, ◌==◌, ltb, leb, update, bit_or, count,
}

-- HIGH_MEMORY, BUFFER_END, LOW_MEM and PAGING_PAGES.
abbrev pub high_memory : ℕ
high_memory = 0x800000

abbrev pub buffer_end : ℕ
buffer_end = 0x200000

abbrev pub low_mem : ℕ
low_mem = buffer_end

abbrev pub page_size : ℕ
page_size = 4096

abbrev pub paging_pages : ℕ
paging_pages = (high_memory - low_mem) / page_size

-- MAP_NR.
abbrev pub map_nr : ℕ → ℕ
map_nr addr = (addr - low_mem) / page_size

-- `mem_map` and the words of physical memory.
pub record Mem : Type 0 where
  pub mem_map : ℕ → ℕ
  pub word : ℕ → ℕ

-- The words of the page at an address, and the page of a word index.
abbrev pub in_page : ℕ → ℕ → Bool
in_page page a = leb (page / 4) a && ltb a (page / 4 + 1024)

-- `0xfffff000 & x` of a word, and its present bit.
abbrev pub frame_of : ℕ → ℕ
frame_of x = x / page_size * page_size

abbrev pub present : ℕ → Bool
present x = x % 2 == 1

-- `(address >> 20) & 0xffc` and `(address >> 10) & 0xffc`, as word indices.
abbrev pub dir_index : ℕ → ℕ
dir_index address = address / 2 ^ 22 % 1024

abbrev pub table_index : ℕ → ℕ
table_index address = address / 2 ^ 12 % 1024

-- `std; repne; scasw` from the last entry down: the highest free page below `k`.
unfoldable pub last_free : ℕ → (ℕ → ℕ) → Option ℕ
last_free zero map = none
last_free (suc k) map = if map k == 0 then some k else last_free k map

-- `rep; stosl` over a page.
abbrev pub clear_page : (ℕ → ℕ) → ℕ → ℕ → ℕ
clear_page w page a = if in_page page a then 0 else w a

unfoldable pub get_free_page : Mem → ℕ × Mem
get_free_page m = elim (last_free paging_pages m.mem_map) [
  | none ↦ (0, m)
  | some i ↦ (
    low_mem + i * page_size,
    record { mem_map = update m.mem_map i 1; word = clear_page m.word (low_mem + i * page_size) },
  )
]

-- `none` is a panic.
unfoldable pub free_page : ℕ → Mem → Option Mem
free_page addr m =
    if ltb addr low_mem
    then some m
    else if ltb high_memory addr
    then none
    else if m.mem_map (map_nr addr) == 0
    then none
    else some (record m { mem_map = update m.mem_map (map_nr addr) (m.mem_map (map_nr addr) - 1) })

-- `copy_page`.
unfoldable pub copy_page : ℕ → ℕ → Mem → Mem
copy_page from to m = record m {
  word = λ a. if in_page to a then m.word (a - to / 4 + from / 4) else m.word a;
}

-- `*p = v` for a word.
abbrev pub store : ℕ → ℕ → Mem → Mem
store p v m = record m { word = update m.word p v }

-- The two outcomes of a function that may call `do_exit`.
pub data Outcome : Type 0 where
  handled : Mem → Outcome
  killed : Mem → Outcome

-- `un_wp_page` of the entry with word index `e`.
unfoldable pub un_wp_page : ℕ → Mem → Outcome
un_wp_page e m =
    let old = frame_of (m.word e) in
    if leb low_mem old && m.mem_map (map_nr old) == 1
    then Outcome.handled (store e (bit_or (m.word e) 2) m)
    else let (new, m1) = get_free_page m in
      if new == 0
      then Outcome.killed m1
      else let m2 : Mem =
          if leb low_mem old
          then record m1 {
            mem_map =
                update m1.mem_map (map_nr old) ((m1.mem_map (map_nr old) + 2 ^ 16 - 1) % 2 ^ 16);
          }
          else m1 in
        Outcome.handled (copy_page old new (store e (bit_or new 7) m2))

-- The word index of the table entry of an address, by the directory.
abbrev pub entry_of : Mem → ℕ → ℕ
entry_of m address = frame_of (m.word (dir_index address)) / 4 + table_index address

unfoldable pub do_wp_page : ℕ → Mem → Outcome
do_wp_page address m = un_wp_page (entry_of m address) m

unfoldable pub write_verify : ℕ → Mem → Outcome
write_verify address m =
    if not (present (m.word (dir_index address)))
    then Outcome.handled m
    else if m.word (entry_of m address) % 4 == 1
    then un_wp_page (entry_of m address) m
    else Outcome.handled m

-- `put_page`: the page, or 0. The warnings that it prints are left out.
unfoldable pub put_page : ℕ → ℕ → Mem → ℕ × Mem
put_page page address m =
    if present (m.word (dir_index address))
    then (page, store (entry_of m address) (bit_or page 7) m)
    else let (tmp, m1) = get_free_page m in
      if tmp == 0 then (0, m1) else (
        page,
        store (tmp / 4 + table_index address) (bit_or page 7)
            (store (dir_index address) (bit_or tmp 7) m1),
      )

unfoldable pub do_no_page : ℕ → Mem → Outcome
do_no_page address m =
    let (tmp, m1) = get_free_page m in
    if tmp == 0
    then Outcome.killed m1
    else let (put, m2) = put_page tmp address m1 in
      if put == 0 then Outcome.killed m2 else Outcome.handled m2

-- The first number that `calc_mem` prints: the free pages.
unfoldable pub free_pages : Mem → ℕ
free_pages m = count (λ n. n == 0) paging_pages m.mem_map
