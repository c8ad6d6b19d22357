-- ===== src/Memory/Write.antt =====
-- mm/memory.c: copy on write, by `un_wp_page`.
use rhee_creatives_linux_v.Base.{
  ℕ, ◌+◌, ◌-◌, ◌*◌, ◌/◌, ◌%◌, ◌^◌, ◌≤◌, ◌<◌, ◌≡◌, ◌≢◌, refl, ◌∙◌, ◌⊎◌, inl, inr, Bool, true, false,
  ◌&&◌, if◌then◌else◌, ◌==◌, leb, update, update_ne, update_self, arith, Bool-cases, bit_or, subst,
}
use rhee_creatives_linux_v.Base.Bits.{bit_or_seven, bit_or_two}
use rhee_creatives_linux_v.Memory.{
  Mem, low_mem, high_memory, page_size, map_nr, in_page, frame_of, get_free_page, copy_page, store,
  free_pages, handled, killed, un_wp_page,
}
use rhee_creatives_linux_v.Memory.Alloc.{Allocated, get_free_page-Allocated}

-- An address belongs to the kernel or to a page in use.
abbrev pub InUse : Mem → ℕ → Type 0
InUse m a = (a < high_memory) × (low_mem ≤ a → m.mem_map (map_nr a) ≢ 0)

-- What holds of the entry with word index `e` when `un_wp_page` is called.
pub record Faults (m : Mem) (e : ℕ) : Type 0 where
  pub table : InUse m (4 * e)
  pub page : InUse m (frame_of (m.word e))
  pub apart : in_page (frame_of (m.word e)) e ≡ false
  pub counts : (j : ℕ) → m.mem_map j < 2 ^ 16

-- What holds after: the entry can be written, its page is used by it alone and has the contents of
-- the page before, and the reference that the entry held to that page is given up.
pub record Private (m : Mem) (e : ℕ) (m' : Mem) : Type 0 where
  pub writable : m'.word e / 2 % 2 ≡ 1
  pub contents :
      (k : ℕ)
      → k < 1024
      → m'.word (frame_of (m'.word e) / 4 + k) ≡ m.word (frame_of (m.word e) / 4 + k)
  pub paged : low_mem ≤ frame_of (m'.word e)
  pub alone : m'.mem_map (map_nr (frame_of (m'.word e))) ≡ 1
  pub given_up :
      frame_of (m'.word e) ≢ frame_of (m.word e)
      → low_mem ≤ frame_of (m.word e)
      → m'.mem_map (map_nr (frame_of (m.word e))) + 1 ≡ m.mem_map (map_nr (frame_of (m.word e)))
  pub other_words :
      (a : ℕ) → a ≢ e → in_page (frame_of (m'.word e)) a ≡ false → m'.word a ≡ m.word a
  pub other_counts :
      (j : ℕ)
      → j ≢ map_nr (frame_of (m'.word e))
      → (low_mem ≤ frame_of (m.word e) → j ≢ map_nr (frame_of (m.word e)))
      → m'.mem_map j ≡ m.mem_map j

-- The page is used by this entry alone.
abbrev sole : Mem → ℕ → Bool
sole m old = leb low_mem old && m.mem_map (map_nr old) == 1

frame-or_two : (x : ℕ) → frame_of (bit_or x 2) ≡ frame_of x
frame-or_two x = omega (arith, bit_or_two x)

sole-Private :
    (m : Mem) (e : ℕ)
    → Faults m e
    → sole m (frame_of (m.word e)) ≡ true
    → Private m e (store e (bit_or (m.word e) 2) m)
sole-Private m e v s =
    let same : frame_of (update m.word e (bit_or (m.word e) 2) e) ≡ frame_of (m.word e) =
      rw (update_self m.word e (bit_or (m.word e) 2)) (frame-or_two (m.word e)) in
    record {
      writable =
          rw (update_self m.word e (bit_or (m.word e) 2)) (omega (arith, bit_or_two (m.word e)));
      contents = λ k h. rw same (
          update_ne m.word e (frame_of (m.word e) / 4 + k) (bit_or (m.word e) 2)
            (λ q. ground (arith, v.apart, q)));
      paged = rw same (ground (arith, s));
      alone = rw same (ground (arith, s));
      given_up = λ ne. absurd (ne same);
      other_words = λ a ne out. update_ne m.word e a (bit_or (m.word e) 2) ne;
      other_counts = λ j ne kept. refl;
    }

-- The memory after the copy to the page `new` with index `i`, from the allocation `m1` on.
abbrev copied : Mem → ℕ → ℕ → ℕ → Mem
copied m1 e old new = copy_page old new (
    store e (bit_or new 7) (
      if leb low_mem old
      then record m1 {
        mem_map = update m1.mem_map (map_nr old) ((m1.mem_map (map_nr old) + 2 ^ 16 - 1) % 2 ^ 16);
      }
      else m1))

module _ (m : Mem) (e i : ℕ) (m1 : Mem) (v : Faults m e)
    (al : Allocated m i (low_mem + i * page_size) m1)
    (shared : sole m (frame_of (m.word e)) ≡ false) where
  abbrev new : ℕ
  new = low_mem + i * page_size

  abbrev old : ℕ
  old = frame_of (m.word e)

  new-or_seven : bit_or new 7 ≡ new + 7
  new-or_seven = bit_or_seven new (omega arith)

  -- The entry does not stand in the new page, which was free.
  entry_outside : in_page new e ≡ false
  entry_outside = ground (arith, v.table, al.last)

  old_outside : (k : ℕ) → k < 1024 → in_page new (old / 4 + k) ≡ false
  old_outside k h = ground (arith, v.page, al.last)

  copied_word :
      (a : ℕ)
      → a ≢ e
      → (store e (bit_or new 7) (
            if leb low_mem old
            then record m1 {
              mem_map =
                  update m1.mem_map (map_nr old) ((m1.mem_map (map_nr old) + 2 ^ 16 - 1) % 2 ^ 16);
            }
            else m1)).word
          a
        ≡ m1.word a
  copied_word a ne = ground arith

  entry_word : (copied m1 e old new).word e ≡ new + 7
  unfolding copy_page
  entry_word = rw entry_outside (ground (arith, new-or_seven))

  entry_frame : frame_of ((copied m1 e old new).word e) ≡ new
  entry_frame = rw entry_word (omega arith)

  -- A word of the new page is that of the old one before the fault.
  page_word : (k : ℕ) → k < 1024 → (copied m1 e old new).word (new / 4 + k) ≡ m.word (old / 4 + k)
  unfolding copy_page
  page_word k h =
      let inside : in_page new (new / 4 + k) ≡ true = ground arith in
      let index : new / 4 + k - new / 4 + old / 4 ≡ old / 4 + k = omega arith in
      let differs : old / 4 + k ≢ e = λ q. ground (arith, v.apart, q) in
      rw (inside, index)
        (copied_word (old / 4 + k) differs ∙ al.spared (old / 4 + k) (old_outside k h))

  -- The counts after the copy.
  new_count : (copied m1 e old new).mem_map i ≡ 1
  unfolding copy_page
  new_count = ground (arith, al.counted, v.page, al.last)

  old_count :
      low_mem ≤ old → (copied m1 e old new).mem_map (map_nr old) + 1 ≡ m.mem_map (map_nr old)
  unfolding copy_page
  old_count h =
      ground (arith, v.page, v.counts (map_nr old), al.last, al.kept (map_nr old), al.counted)

  kept_count :
      (j : ℕ)
      → j ≢ i
      → (low_mem ≤ old → j ≢ map_nr old)
      → (copied m1 e old new).mem_map j ≡ m.mem_map j
  unfolding copy_page
  kept_count j ne apart = ground (arith, al.kept j, apart)

  kept_word : (a : ℕ) → a ≢ e → in_page new a ≡ false → (copied m1 e old new).word a ≡ m.word a
  unfolding copy_page
  kept_word a ne out = rw out (copied_word a ne ∙ al.spared a out)

  copied-Private : Private m e (copied m1 e old new)
  copied-Private = record {
    writable = rw entry_word (omega arith);
    contents = λ k h. rw entry_frame (page_word k h);
    paged = rw entry_frame (omega arith);
    alone = rw (entry_frame, index) new_count;
    given_up = λ ne paged. old_count paged;
    other_words = λ a ne. rw entry_frame (kept_word a ne);
    other_counts = λ j. rw (entry_frame, index) (kept_count j);
  }
    where
      index : map_nr new ≡ i
      index = omega arith

un_wp_page-sole :
    (e : ℕ) (m : Mem)
    → sole m (frame_of (m.word e)) ≡ true
    → un_wp_page e m ≡ handled (store e (bit_or (m.word e) 2) m)
unfolding un_wp_page
un_wp_page-sole e m s = rw s

un_wp_page_full :
    (e : ℕ) (m : Mem)
    → sole m (frame_of (m.word e)) ≡ false
    → get_free_page m ≡ (0, m)
    → un_wp_page e m ≡ killed m
unfolding un_wp_page
un_wp_page_full e m s full = rw (s, full)

un_wp_page_copy :
    (e i : ℕ) (m : Mem)
    → sole m (frame_of (m.word e)) ≡ false
    → (get_free_page m).0 ≡ low_mem + i * page_size
    → un_wp_page e m
      ≡ handled (copied (get_free_page m).1 e (frame_of (m.word e)) (low_mem + i * page_size))
unfolding un_wp_page
un_wp_page_copy e i m s page =
    let some_page : ((low_mem + i * page_size) == 0) ≡ false = ground arith in
    rw (s, page, some_page)

-- Copy on write: for an entry that stands in a page in use, refers to a page in use and is not a
-- word of that page, `un_wp_page` either makes the entry writable, with a page of the same
-- contents that no other reference has, gives up the one reference to the old page if the page is
-- another, and changes no other word outside the new page and no other count; or no page is free,
-- and it kills the process with nothing changed.
pub un_wp_page-Private :
    (m : Mem) (e : ℕ)
    → Faults m e
    → ((m' : Mem) × (un_wp_page e m ≡ handled m') × Private m e m')
      ⊎ ((un_wp_page e m ≡ killed m) × (free_pages m ≡ 0))
un_wp_page-Private m e v = elim (Bool-cases (sole m (frame_of (m.word e)))) [
  | inl s ↦ inl (_, un_wp_page-sole e m s, sole-Private m e v s)
  | inr shared ↦ elim (get_free_page-Allocated m) [
    | inl (full, zero_free) ↦ inr (un_wp_page_full e m shared full, zero_free)
    | inr (i, al) ↦
        let al' = subst (λ p. Allocated m i p (get_free_page m).1) al.address al in
        inl (
          _,
          un_wp_page_copy e i m shared al.address,
          copied-Private m e i (get_free_page m).1 v al' shared,
        )
  ]
]
