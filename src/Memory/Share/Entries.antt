-- ===== src/Memory/Share/Entries.antt =====
-- mm/memory.c: what sharing a page table does to both tables and to the reference counts.
use rhee_creatives_linux_v.Base.{
  ℕ, zero, suc, ◌+◌, ◌%◌, ◌^◌, ◌≤◌, ◌<◌, ◌≡◌, ◌≢◌, refl, ◌∙◌, ap, ◌⊎◌, Bool, ◌&&◌, if◌then◌else◌,
  ◌==◌, ltb, count, count-suc, count_congr, count-zero, arith,
}
use rhee_creatives_linux_v.Memory.{Mem, low_mem, map_nr, present}
use rhee_creatives_linux_v.Memory.Share.{read_only, copy_entry, copy_entries}

-- The entry is present, and its page is one that is counted.
abbrev pub is_shared : ℕ → Bool
is_shared w = present w && ltb low_mem (read_only w)

-- The entry refers to the counted page with index `p`.
abbrev pub refers : ℕ → ℕ → Bool
refers p w = is_shared w && map_nr (read_only w) == p

-- After the `n` entries from `f` on have been copied to those from `t` on.
pub record Shared (n f t : ℕ) (m r : Mem) : Type 0 where
  pub to_table :
      (j : ℕ)
      → j < n
      → r.word (t + j)
        ≡ (if present (m.word (f + j)) then read_only (m.word (f + j)) else m.word (t + j))
  pub from_table :
      (j : ℕ)
      → j < n
      → r.word (f + j)
        ≡ (if is_shared (m.word (f + j)) then read_only (m.word (f + j)) else m.word (f + j))
  pub other_words : (a : ℕ) → ((j : ℕ) → j < n → (a ≢ f + j) × (a ≢ t + j)) → r.word a ≡ m.word a
  pub counts :
      (p : ℕ)
      → m.mem_map p < 2 ^ 16
      → r.mem_map p ≡ (m.mem_map p + count (refers p) n (λ j. m.word (f + j))) % 2 ^ 16

-- The tables do not overlap.
abbrev pub Apart : ℕ → ℕ → ℕ → Type 0
Apart n f t = (f + n ≤ t) ⊎ (t + n ≤ f)

-- One entry.
copy_entry-word :
    (f t : ℕ) (m : Mem)
    → f ≢ t
    → ((copy_entry f t m).word t ≡ (if present (m.word f) then read_only (m.word f) else m.word t))
      × ((copy_entry f t m).word f
          ≡ (if is_shared (m.word f) then read_only (m.word f) else m.word f))
      × ((a : ℕ) → a ≢ f → a ≢ t → (copy_entry f t m).word a ≡ m.word a)
unfolding copy_entry
copy_entry-word f t m ne = (ground arith, ground arith, λ a nf nt. ground arith)

copy_entry-count :
    (f t : ℕ) (m : Mem) (p : ℕ)
    → m.mem_map p < 2 ^ 16
    → (copy_entry f t m).mem_map p ≡ (m.mem_map p + (if refers p (m.word f) then 1 else 0)) % 2 ^ 16
unfolding copy_entry
copy_entry-count f t m p small = ground arith

module _ (n f t : ℕ) (m r : Mem) (apart : Apart (suc n) f t)
    (rest : Shared n (f + 1) (t + 1) (copy_entry f t m) r) where
  one :
      ((copy_entry f t m).word t ≡ (if present (m.word f) then read_only (m.word f) else m.word t))
      × ((copy_entry f t m).word f
          ≡ (if is_shared (m.word f) then read_only (m.word f) else m.word f))
      × ((a : ℕ) → a ≢ f → a ≢ t → (copy_entry f t m).word a ≡ m.word a)
  one = copy_entry-word f t m (λ e. omega (arith, apart, e))

  -- Later entries are as they were when the first has been copied.
  later_from : (j : ℕ) → j < n → (copy_entry f t m).word (f + 1 + j) ≡ m.word (f + suc j)
  later_from j h =
      one.2 (f + 1 + j) (λ e. omega (arith, e)) (λ e. omega (arith, e, apart, h))
      ∙ ap m.word (omega arith)

  later_to : (j : ℕ) → j < n → (copy_entry f t m).word (t + 1 + j) ≡ m.word (t + suc j)
  later_to j h =
      one.2 (t + 1 + j) (λ e. omega (arith, e, apart, h)) (λ e. omega (arith, e))
      ∙ ap m.word (omega arith)

  -- The first entries are out of the reach of the rest.
  first_to : r.word t ≡ (copy_entry f t m).word t
  first_to = rest.other_words t (λ j h. (λ e. omega (arith, e, apart, h), λ e. omega (arith, e)))

  first_from : r.word f ≡ (copy_entry f t m).word f
  first_from = rest.other_words f (λ j h. (λ e. omega (arith, e), λ e. omega (arith, e, apart, h)))

  to_step :
      (j : ℕ)
      → j < suc n
      → r.word (t + j)
        ≡ (if present (m.word (f + j)) then read_only (m.word (f + j)) else m.word (t + j))
  to_step zero h =
      let e : f + 0 ≡ f = omega arith in
      let e' : t + 0 ≡ t = omega arith in rw (e, e') (first_to ∙ one.0)
  to_step (suc j) h =
      ap r.word (omega arith)
      ∙ rest.to_table j (omega (arith, h))
      ∙ rw (later_from j (omega (arith, h)), later_to j (omega (arith, h)))

  from_step :
      (j : ℕ)
      → j < suc n
      → r.word (f + j)
        ≡ (if is_shared (m.word (f + j)) then read_only (m.word (f + j)) else m.word (f + j))
  from_step zero h = let e : f + 0 ≡ f = omega arith in rw e (first_from ∙ one.1)
  from_step (suc j) h =
      ap r.word (omega arith)
      ∙ rest.from_table j (omega (arith, h))
      ∙ rw (later_from j (omega (arith, h)))

  other_step : (a : ℕ) → ((j : ℕ) → j < suc n → (a ≢ f + j) × (a ≢ t + j)) → r.word a ≡ m.word a
  other_step a out =
      rest.other_words a (λ j h. (
        λ e. (out (suc j) (omega (arith, h))).0 (omega (arith, e)),
        λ e. (out (suc j) (omega (arith, h))).1 (omega (arith, e)),
      ))
      ∙ one.2 a (λ e. (out 0 (omega arith)).0 (omega (arith, e)))
          (λ e. (out 0 (omega arith)).1 (omega (arith, e)))

  count_step :
      (p : ℕ)
      → m.mem_map p < 2 ^ 16
      → r.mem_map p ≡ (m.mem_map p + count (refers p) (suc n) (λ j. m.word (f + j))) % 2 ^ 16
  count_step p small =
      let here : (if refers p (m.word (f + 0)) then 1 else 0)
          ≡ (if refers p (m.word f) then 1 else 0) =
        ap (λ (a : ℕ). let one : ℕ = 1 in if refers p (m.word a) then one else 0) (omega arith) in
      omega (
        arith,
        rest.counts p (rw (copy_entry-count f t m p small) (omega arith)),
        copy_entry-count f t m p small,
        count-suc (refers p) n (λ j. m.word (f + j)),
        count_congr (refers p) n (λ j. (copy_entry f t m).word (f + 1 + j))
            (λ j. m.word (f + suc j)) later_from,
        here,
      )

-- Sharing `n` entries of one page table with another that does not overlap it: the new table gets
-- each present entry without its write bit and keeps the others; the old entries of counted pages
-- lose their write bit and the rest of it stays; no other word changes; and the count of every
-- page grows, modulo 2 ^ 16, by the number of entries that refer to it.
pub copy_entries-Shared :
    (n f t : ℕ) (m : Mem) → Apart n f t → Shared n f t m (copy_entries n f t m)
unfolding copy_entries
copy_entries-Shared zero f t m apart = record {
  to_table = λ j h. absurd (omega (arith, h));
  from_table = λ j h. absurd (omega (arith, h));
  other_words = λ a out. refl;
  counts = λ p small. omega (arith, small, count-zero (refers p) (λ j. m.word (f + j)));
}
copy_entries-Shared (suc n) f t m apart =
    let rest = copy_entries-Shared n (f + 1) (t + 1) (copy_entry f t m) (omega (arith, apart)) in
    record {
      to_table = to_step n f t m _ apart rest;
      from_table = from_step n f t m _ apart rest;
      other_words = other_step n f t m _ apart rest;
      counts = count_step n f t m _ apart rest;
    }
