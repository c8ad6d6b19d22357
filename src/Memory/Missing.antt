-- ===== src/Memory/Missing.antt =====
-- mm/memory.c: a missing page, by `do_no_page`.
use rhee_creatives_linux_v.Base.{
  ℕ, ◌+◌, ◌*◌, ◌/◌, ◌%◌, ◌≤◌, ◌<◌, ◌≡◌, ◌≢◌, refl, sym, ◌∙◌, ap, ◌⊎◌, inl, inr, true, false,
  if◌then◌else◌, ◌==◌, update_ne, update_self, arith, Bool-cases, bit_or, subst,
}
use rhee_creatives_linux_v.Base.Bits.{bit_or_seven}
use rhee_creatives_linux_v.Memory.{
  Mem, low_mem, high_memory, page_size, paging_pages, map_nr, in_page, frame_of, present,
  get_free_page, store, free_pages, handled, killed, put_page, do_no_page, entry_of, dir_index,
  table_index,
}
use rhee_creatives_linux_v.Memory.Alloc.{Allocated, get_free_page-Allocated}
use rhee_creatives_linux_v.Memory.Write.{InUse}

abbrev page_at : ℕ → ℕ
page_at i = low_mem + i * page_size

-- The address is mapped to a page of its own, which was free, and which is cleared.
pub record Mapped (m : Mem) (address : ℕ) (page : ℕ) (m' : Mem) : Type 0 where
  pub directory : present (m'.word (dir_index address)) ≡ true
  pub entry : m'.word (entry_of m' address) ≡ page + 7
  pub paged : (low_mem ≤ page) × (page < high_memory) × (page % page_size ≡ 0)
  pub was_free : m.mem_map (map_nr page) ≡ 0
  pub counted : m'.mem_map (map_nr page) ≡ 1
  pub cleared : (k : ℕ) → k < 1024 → m'.word (page / 4 + k) ≡ 0

Allocated-at :
    (m : Mem) (i : ℕ)
    → Allocated m i (get_free_page m).0 (get_free_page m).1
    → Allocated m i (page_at i) (get_free_page m).1
Allocated-at m i al = subst (λ p. Allocated m i p (get_free_page m).1) al.address al

-- Writing the entry `x` of the address maps the page with index `i`, if the entry is none of the
-- words that matter.
module _ (m m2 : Mem) (address i x : ℕ) (small : i < paging_pages) (was_free : m.mem_map i ≡ 0)
    (counted : m2.mem_map i ≡ 1) (there : present (m2.word (dir_index address)) ≡ true)
    (place : entry_of m2 address ≡ x) (not_dir : dir_index address ≢ x)
    (outside : in_page (page_at i) x ≡ false)
    (zeros : (k : ℕ) → k < 1024 → m2.word (page_at i / 4 + k) ≡ 0) where
  abbrev written : Mem
  written = store x (bit_or (page_at i) 7) m2

  dir_same : written.word (dir_index address) ≡ m2.word (dir_index address)
  dir_same = update_ne m2.word x (dir_index address) (bit_or (page_at i) 7) not_dir

  written-Mapped : Mapped m address (page_at i) written
  written-Mapped = record {
    directory = rw dir_same there;
    entry =
        ap written.word (ap (λ w. frame_of w / 4 + table_index address) dir_same ∙ place)
        ∙ update_self m2.word x (bit_or (page_at i) 7)
        ∙ bit_or_seven (page_at i) (omega arith);
    paged = (omega arith, omega (arith, small), omega arith);
    was_free = rw index was_free;
    counted = rw index counted;
    cleared = λ k h.
        update_ne m2.word x (page_at i / 4 + k) (bit_or (page_at i) 7)
          (λ q. ground (arith, outside, q))
        ∙ zeros k h;
  }
    where
      index : map_nr (page_at i) ≡ i
      index = omega arith

-- With a page table: the entry is written there.
module _ (m m1 : Mem) (address i : ℕ) (al : Allocated m i (page_at i) m1) where
  dir_kept : m1.word (dir_index address) ≡ m.word (dir_index address)
  dir_kept = al.spared (dir_index address) (ground arith)

  zeros : (k : ℕ) → k < 1024 → m1.word (page_at i / 4 + k) ≡ 0
  zeros k h = al.cleared (page_at i / 4 + k) (ground arith)

  table-Mapped :
      present (m.word (dir_index address)) ≡ true
      → InUse m (frame_of (m.word (dir_index address)))
      → page_size ≤ frame_of (m.word (dir_index address))
      → Mapped m address (page_at i) (store (entry_of m1 address) (bit_or (page_at i) 7) m1)
  table-Mapped there table apart =
      written-Mapped m m1 address i (entry_of m1 address) al.last.0 al.last.1 al.counted
        (rw dir_kept there) refl (rw dir_kept (λ q. ground (arith, q, apart)))
        (rw dir_kept (ground (arith, table, al.last))) zeros

  -- Without one: the page with index `j` becomes the table.
  module _ (j : ℕ) (m2 : Mem) (al2 : Allocated m1 j (page_at j) m2) where
    abbrev linked : Mem
    linked = store (dir_index address) (bit_or (page_at j) 7) m2

    differs : j ≢ i
    differs e = ground (arith, al2.last.1, al.counted, e)

    fresh-Mapped :
        Mapped m address
          (page_at i)
          (store (page_at j / 4 + table_index address) (bit_or (page_at i) 7) linked)
    fresh-Mapped =
        written-Mapped m linked address i (page_at j / 4 + table_index address) al.last.0 al.last.1
          (al2.kept i (λ e. differs (sym e)) ∙ al.counted) (rw dir_word (ground (arith)))
          (rw dir_word (omega arith)) (λ q. omega (arith, q)) (ground (arith, differs))
          (λ k h.
            update_ne m2.word (dir_index address) (page_at i / 4 + k) (bit_or (page_at j) 7)
              (λ q. omega (arith, q))
            ∙ kept_zero k h)
      where
        dir_word : linked.word (dir_index address) ≡ page_at j + 7
        dir_word =
            update_self m2.word (dir_index address) (bit_or (page_at j) 7)
            ∙ bit_or_seven (page_at j) (omega arith)

        kept_zero : (k : ℕ) → k < 1024 → m2.word (page_at i / 4 + k) ≡ 0
        kept_zero k h = al2.spared (page_at i / 4 + k) (ground (arith, differs)) ∙ zeros k h

-- What `put_page` does with the page of an allocation.
put_page_table :
    (page address : ℕ) (m : Mem)
    → present (m.word (dir_index address)) ≡ true
    → put_page page address m ≡ (page, store (entry_of m address) (bit_or page 7) m)
unfolding put_page
put_page_table page address m there = rw there

put_page_full :
    (page address : ℕ) (m : Mem)
    → present (m.word (dir_index address)) ≡ false
    → get_free_page m ≡ (0, m)
    → put_page page address m ≡ (0, m)
unfolding put_page
put_page_full page address m missing full = rw (missing, full)

put_page_fresh :
    (page address j : ℕ) (m : Mem)
    → present (m.word (dir_index address)) ≡ false
    → (get_free_page m).0 ≡ page_at j
    → put_page page address m ≡ (
      page,
      store
          (page_at j / 4 + table_index address)
          (bit_or page 7)
          (store (dir_index address) (bit_or (page_at j) 7) (get_free_page m).1),
    )
unfolding put_page
put_page_fresh page address j m missing got =
    let some_page : (page_at j == 0) ≡ false = ground arith in rw (missing, got, some_page)

do_no_page_put :
    (address i : ℕ) (m : Mem)
    → (get_free_page m).0 ≡ page_at i
    → do_no_page address m ≡ (
        if (put_page (page_at i) address (get_free_page m).1).0 == 0
        then killed (put_page (page_at i) address (get_free_page m).1).1
        else handled (put_page (page_at i) address (get_free_page m).1).1)
unfolding do_no_page
do_no_page_put address i m got =
    let some_page : (page_at i == 0) ≡ false = ground arith in rw (got, some_page)

-- A page table of the directory, where there is one, is a page in use and not the directory.
abbrev pub HasTable : Mem → ℕ → Type 0
HasTable m address =
    present (m.word (dir_index address)) ≡ true
    → InUse m (frame_of (m.word (dir_index address)))
      × (page_size ≤ frame_of (m.word (dir_index address)))

do_no_page_full :
    (address : ℕ) (m : Mem) → get_free_page m ≡ (0, m) → do_no_page address m ≡ killed m
unfolding do_no_page
do_no_page_full address m full = rw full

-- `do_no_page` once the page with index `i` has been allocated, by what `put_page` returns.
put_some :
    (m m' : Mem) (address i : ℕ)
    → (get_free_page m).0 ≡ page_at i
    → put_page (page_at i) address (get_free_page m).1 ≡ (page_at i, m')
    → do_no_page address m ≡ handled m'
put_some m m' address i got put =
    let some_page : (page_at i == 0) ≡ false = ground arith in
    do_no_page_put address i m got ∙ rw (put, some_page)

put_none :
    (m m' : Mem) (address i : ℕ)
    → (get_free_page m).0 ≡ page_at i
    → put_page (page_at i) address (get_free_page m).1 ≡ (0, m')
    → do_no_page address m ≡ killed m'
put_none m m' address i got put = do_no_page_put address i m got ∙ rw put

abbrev Outcomes : Mem → ℕ → Type 0
Outcomes m address =
    ((page : ℕ) × (m' : Mem) × (do_no_page address m ≡ handled m') × Mapped m address page m')
    ⊎ ((m' : Mem) × (do_no_page address m ≡ killed m') × (free_pages m' ≡ 0))

with_page :
    (m : Mem) (address i : ℕ)
    → HasTable m address
    → Allocated m i (get_free_page m).0 (get_free_page m).1
    → Outcomes m address
with_page m address i table got =
    let m1 : Mem = (get_free_page m).1 in
    let al = Allocated-at m i got in
    let dir : m1.word (dir_index address) ≡ m.word (dir_index address) =
      dir_kept m m1 address i al in
    elim (Bool-cases (present (m.word (dir_index address)))) [
      | inl there ↦ inl (
        page_at i,
        _,
        put_some m _ address i got.address (put_page_table (page_at i) address m1 (rw dir there)),
        table-Mapped m m1 address i al there (table there).0 (table there).1,
      )
      | inr missing ↦ elim (get_free_page-Allocated m1) [
        | inl (full, none_free) ↦ inr (
          m1,
          put_none m m1 address i got.address
              (put_page_full (page_at i) address m1 (rw dir missing) full),
          none_free,
        )
        | inr (j, got2) ↦ inl (
          page_at i,
          _,
          put_some m _ address i got.address
              (put_page_fresh (page_at i) address j m1 (rw dir missing) got2.address),
          fresh-Mapped m m1 address i al j (get_free_page m1).1 (Allocated-at m1 j got2),
        )
      ]
    ]

-- `do_no_page` maps the address to a cleared page that was free and is now counted once; or it
-- kills the process, and then no page is free.
pub do_no_page-Mapped :
    (m : Mem) (address : ℕ)
    → HasTable m address
    → ((page : ℕ) × (m' : Mem) × (do_no_page address m ≡ handled m') × Mapped m address page m')
      ⊎ ((m' : Mem) × (do_no_page address m ≡ killed m') × (free_pages m' ≡ 0))
do_no_page-Mapped m address table = elim (get_free_page-Allocated m) [
  | inl (full, none_free) ↦ inr (m, do_no_page_full address m full, none_free)
  | inr (i, got) ↦ with_page m address i table got
]

-- When one page is free and the address has no page table, `do_no_page` takes the page, finds no
-- second one for the table, and kills the process with the page still counted: the directory does
-- not refer to it, and no page is free any more.
pub do_no_page-leak :
    (m : Mem) (address : ℕ)
    → free_pages m ≡ 1
    → present (m.word (dir_index address)) ≡ false
    → (m' : Mem) × (do_no_page address m ≡ killed m')
      × (free_pages m' ≡ 0)
      × (i : ℕ) × (m.mem_map i ≡ 0)
      × (m'.mem_map i ≡ 1)
      × (m'.word (dir_index address) ≡ m.word (dir_index address))
do_no_page-leak m address one missing = elim (get_free_page-Allocated m) [
  | inl (full, none_free) ↦ absurd (omega (arith, none_free, one))
  | inr (i, got) ↦
      let m1 : Mem = (get_free_page m).1 in
      let dir : m1.word (dir_index address) ≡ m.word (dir_index address) =
        dir_kept m m1 address i (Allocated-at m i got) in
      elim (get_free_page-Allocated m1) [
        | inl (full, none_free) ↦ (
          m1,
          put_none m m1 address i got.address
              (put_page_full (page_at i) address m1 (rw dir missing) full),
          none_free,
          i,
          got.last.1,
          got.counted,
          dir,
        )
        | inr (j, got2) ↦ absurd (omega (arith, got.fewer, got2.fewer, one))
      ]
]
