-- ===== src/Memory/Alloc.antt =====
-- mm/memory.c: what `get_free_page` and `free_page` do to the counts and the memory.
use rhee_creatives_linux_v.Base.{
  ℕ, zero, suc, ◌+◌, ◌-◌, ◌*◌, ◌≤◌, ◌<◌, ◌≡◌, ◌≢◌, refl, ap, ◌⊎◌, inl, inr, ◌↔◌, Option, none, some,
  true, false, ◌==◌, update, update_ne, arith, Bool-cases, Option-cases, subst, ==_iff,
  count-update, count-eq_zero,
}
use rhee_creatives_linux_v.Memory.{
  Mem, low_mem, high_memory, page_size, paging_pages, map_nr, in_page, last_free, get_free_page,
  free_page, free_pages,
}

-- `i` is the last free page below `k`.
abbrev pub LastFree : ℕ → (ℕ → ℕ) → Option ℕ → Type 0
LastFree k map none = (j : ℕ) → j < k → map j ≢ 0
LastFree k map (some i) = (i < k) × (map i ≡ 0) × ((j : ℕ) → i < j → j < k → map j ≢ 0)

from_below : {P : ℕ → Type 0} (k : ℕ) → P k → ((j : ℕ) → j < k → P j) → (j : ℕ) → j < suc k → P j
from_below {P} k last before j h = elim (Bool-cases (k == j)) [
  | inl same ↦ subst P ((==_iff k j).0 same) last
  | inr differs ↦ before j (ground arith)
]

not_free :
    (k : ℕ) (map : ℕ → ℕ) (o : Option ℕ) → map k ≢ 0 → LastFree k map o → LastFree (suc k) map o
not_free k map none h f = from_below {P = λ j. map j ≢ 0} k h f
not_free k map (some i) h (lt, free, above) = (
  omega (arith, lt),
  free,
  λ j low high.
      from_below {P = λ j. i < j → map j ≢ 0} k (λ _. h) (λ j b l. above j l b) j high low,
)

pub last_free-LastFree : (k : ℕ) (map : ℕ → ℕ) → LastFree k map (last_free k map)
unfolding last_free
last_free-LastFree zero map = λ j h. absurd (omega (arith, h))
last_free-LastFree (suc k) map = elim (Bool-cases (map k == 0)) [
  | inl free ↦
      rw free (omega arith, (==_iff _ _).0 free, λ j low high. absurd (omega (arith, low, high)))
  | inr used ↦ rw used (not_free k map _ (ground arith) (last_free-LastFree k map))
]

-- What a successful allocation of the page with index `i` does.
pub record Allocated (m : Mem) (i : ℕ) (page : ℕ) (m' : Mem) : Type 0 where
  pub last : LastFree paging_pages m.mem_map (some i)
  pub address : page ≡ low_mem + i * page_size
  pub counted : m'.mem_map i ≡ 1
  pub kept : (j : ℕ) → j ≢ i → m'.mem_map j ≡ m.mem_map j
  pub cleared : (a : ℕ) → in_page page a ≡ true → m'.word a ≡ 0
  pub spared : (a : ℕ) → in_page page a ≡ false → m'.word a ≡ m.word a
  pub fewer : free_pages m' + 1 ≡ free_pages m

-- `get_free_page` either finds no free page, returns 0 and changes nothing; or it takes the free
-- page of the highest address, sets its count from 0 to 1 and its 1024 words to 0, changes no
-- other count and no other word, and `calc_mem` then finds one free page less.
pub get_free_page-Allocated :
    (m : Mem)
    → ((get_free_page m ≡ (0, m)) × (free_pages m ≡ 0))
      ⊎ ((i : ℕ) × Allocated m i (get_free_page m).0 (get_free_page m).1)
unfolding get_free_page free_pages
get_free_page-Allocated m = elim (Option-cases (last_free paging_pages m.mem_map)) [
  | inl e ↦
      let full : LastFree paging_pages m.mem_map none = rw e at found in
      rw (e, get_free_page)
        (inl (refl, count-eq_zero _ paging_pages m.mem_map (λ j h. ground (arith, full j h))))
  | inr (i, e) ↦
      let free : LastFree paging_pages m.mem_map (some i) = rw e at found in
      rw (e, get_free_page)
        (inr (
          i,
          record {
            last = free;
            address = refl;
            counted = ground arith;
            kept = λ j ne. update_ne m.mem_map i j 1 ne;
            cleared = λ a h. rw h;
            spared = λ a h. rw h;
            fewer = ground (
              arith,
              free.0,
              free.1,
              count-update (λ n. n == 0) paging_pages m.mem_map i 1 free.0,
            );
          },
        ))
]
  where
    found : LastFree paging_pages m.mem_map (last_free paging_pages m.mem_map)
    found = last_free-LastFree paging_pages m.mem_map

-- `free_page` of an address in the page with index `i` of the table takes one from its count and
-- changes nothing else, and panics exactly if the count is 0. It does nothing below LOW_MEM, and
-- panics above HIGH_MEMORY.
pub free_page_lem :
    (m : Mem) (addr : ℕ)
    → (addr < low_mem → free_page addr m ≡ some m)
      × (high_memory < addr → free_page addr m ≡ none)
      × (low_mem ≤ addr
          → addr < high_memory
          → (map_nr addr < paging_pages)
            × ((free_page addr m ≡ none) ↔ (m.mem_map (map_nr addr) ≡ 0))
            × ((m' : Mem)
                → free_page addr m ≡ some m'
                → (m'.mem_map (map_nr addr) + 1 ≡ m.mem_map (map_nr addr))
                  × ((j : ℕ) → j ≢ map_nr addr → m'.mem_map j ≡ m.mem_map j)
                  × (m'.word ≡ m.word)))
unfolding free_page
free_page_lem m addr = (
  λ h. ground arith,
  λ h. ground arith,
  λ low high.
      (omega arith, ground arith, λ m' e. (ground (arith), λ j ne. ground (arith), ground arith)),
)

-- HIGH_MEMORY itself passes the test of `free_page`, although it is the address after the last
-- page: its index is PAGING_PAGES, one past the table, and whatever count stands there is changed.
pub free_page-end :
    (m : Mem)
    → m.mem_map paging_pages ≢ 0
    → (map_nr high_memory ≡ paging_pages)
      × (free_page high_memory m
          ≡ some
              (record m { mem_map = update m.mem_map paging_pages (m.mem_map paging_pages - 1) }))
unfolding free_page
free_page-end m h = (refl, ground arith)

free_page-one :
    (m : Mem) (page i : ℕ)
    → page ≡ low_mem + i * page_size
    → i < paging_pages
    → m.mem_map i ≡ 1
    → free_page page m ≡ some (record m { mem_map = update m.mem_map i 0 })
unfolding free_page
free_page-one m page i e small one =
    let nr : map_nr page ≡ i = omega (arith, e) in rw nr (rw one (ground (arith, e, small)))

-- A page that was allocated and is freed leaves every count, and the number of free pages, as they
-- were before.
pub free_page-get_free_page :
    (m : Mem)
    → (get_free_page m).0 ≢ 0
    → (m' : Mem) × (free_page (get_free_page m).0 (get_free_page m).1 ≡ some m')
      × ((j : ℕ) → m'.mem_map j ≡ m.mem_map j)
free_page-get_free_page m got = elim (get_free_page-Allocated m) [
  | inl (e, full) ↦ absurd (got (ap (λ (r : ℕ × Mem). r.0) e))
  | inr (i, al) ↦ (
    record (get_free_page m).1 { mem_map = update (get_free_page m).1.mem_map i 0 },
    free_page-one (get_free_page m).1 _ i al.address al.last.0 al.counted,
    λ j. elim (Bool-cases (j == i)) [
      | inl same ↦ ground (arith, al.last)
      | inr differs ↦ ground (arith, al.kept j)
    ],
  )
]
