-- ===== src/Zones/Alloc.antt =====
-- fs/bitmap.c: what `new_block` and `free_block` do to the map of the zones.
use rhee_creatives_linux_v.Base.{
  ℕ, zero, suc, ◌+◌, ◌-◌, ◌*◌, ◌/◌, ◌≤◌, ◌<◌, ◌≡◌, ◌≢◌, refl, ◌⊎◌, inl, inr, Option, none, some,
  Bool, true, false, not, ◌||◌, ◌==◌, ltb, leb, if◌then◌else◌, update, arith, Bool-cases,
  Option-cases, ==_iff,
}
use rhee_creatives_linux_v.Zones.{
  Device, Run, done, panicked, fault, map_bits, find_first_zero, find_zero, free_block, new_block,
  wiped, one_more, dropped,
}

-- The first zero from `i` on, of `k` bits.
abbrev pub FirstZero : ℕ → ℕ → (ℕ → Bool) → Option ℕ → Type 0
FirstZero k i map none = (j : ℕ) → i ≤ j → j < i + k → map j ≡ true
FirstZero k i map (some b) =
    (i ≤ b) × (b < i + k) × (map b ≡ false) × ((j : ℕ) → i ≤ j → j < b → map j ≡ true)

found_later :
    (k i : ℕ) (map : ℕ → Bool) (o : Option ℕ)
    → map i ≡ true
    → FirstZero k (i + 1) map o
    → FirstZero (suc k) i map o
found_later k i map none set rest = λ j low high. elim (Bool-cases (j == i)) [
  | inl same ↦ rw ((==_iff j i).0 same) set
  | inr later ↦ rest j (ground arith) (omega arith)
]
found_later k i map (some b) set (low, high, clear, before) = (
  omega (arith, low),
  omega (arith, high),
  clear,
  λ j p q. elim (Bool-cases (j == i)) [
    | inl same ↦ rw ((==_iff j i).0 same) set
    | inr later ↦ before j (ground arith) q
  ],
)

pub find_first_zero-FirstZero :
    (k i : ℕ) (map : ℕ → Bool) → FirstZero k i map (find_first_zero k i map)
unfolding find_first_zero
find_first_zero-FirstZero zero i map = λ j low high. absurd (omega arith)
find_first_zero-FirstZero (suc k) i map = elim (Bool-cases (map i)) [
  | inl set ↦ rw set (found_later k i map _ set (find_first_zero-FirstZero k (i + 1) map))
  | inr clear ↦ rw clear (omega arith, omega arith, clear, λ j p q. absurd (omega arith))
]

-- The first zero in the blocks of the map that there are, of `k` blocks from `i` on.
abbrev pub FirstOf : ℕ → ℕ → (present map : ℕ → Bool) → Option ℕ → Type 0
FirstOf k i present map none =
    (j : ℕ)
    → i * map_bits ≤ j
    → j < (i + k) * map_bits
    → present (j / map_bits) ≡ true
    → map j ≡ true
FirstOf k i present map (some b) =
    (i * map_bits ≤ b)
    × (b < (i + k) * map_bits)
    × (present (b / map_bits) ≡ true)
    × (map b ≡ false)
    × ((j : ℕ) → i * map_bits ≤ j → j < b → present (j / map_bits) ≡ true → map j ≡ true)

-- One block more in front, in which all is set.
block_full :
    (k i : ℕ) (present map : ℕ → Bool) (o : Option ℕ)
    → ((j : ℕ)
        → i * map_bits ≤ j
        → j < i * map_bits + map_bits
        → present (j / map_bits) ≡ true
        → map j ≡ true)
    → FirstOf k (i + 1) present map o
    → FirstOf (suc k) i present map o
block_full k i present map none full rest = λ j low high there.
    elim (Bool-cases (ltb j (i * map_bits + map_bits))) [
      | inl inside ↦ full j low (ground arith) there
      | inr behind ↦ rest j (ground arith) (omega arith) there
    ]
block_full k i present map (some b) full (low, high, there, clear, before) = (
  omega (arith, low),
  omega (arith, high),
  there,
  clear,
  λ j p q present_j. elim (Bool-cases (ltb j (i * map_bits + map_bits))) [
    | inl inside ↦ full j p (ground arith) present_j
    | inr behind ↦ before j (ground arith) q present_j
  ],
)

pub find_zero-FirstOf :
    (k i : ℕ) (present map : ℕ → Bool) → FirstOf k i present map (find_zero k i present map)
unfolding find_zero
find_zero-FirstOf zero i present map = λ j low high there. absurd (omega arith)
find_zero-FirstOf (suc k) i present map = elim (Bool-cases (present i)) [
  | inr missing ↦ rw missing (
      block_full k i present map _
        (λ j low high there.
          let e : j / map_bits ≡ i = omega (arith, low, high) in
          let there' : present i ≡ true = rw e at there in absurd (ground arith))
        (find_zero-FirstOf k (i + 1) present map))
  | inl here ↦ elim (Option-cases (find_first_zero map_bits (i * map_bits) map)) [
    | inl e ↦
        let full : FirstZero map_bits (i * map_bits) map none =
          rw e at (find_first_zero-FirstZero map_bits (i * map_bits) map) in
        rw (here, e)
          (block_full k i present map _ (λ j low high _. full j low high)
            (find_zero-FirstOf k (i + 1) present map))
    | inr (b, e) ↦
        let first : FirstZero map_bits (i * map_bits) map (some b) =
          rw e at (find_first_zero-FirstZero map_bits (i * map_bits) map) in
        let (low, high, clear, before) = first in
        let own : b / map_bits ≡ i = omega (arith, low, high) in
        rw (here, e) (low, omega (arith, high), rw own here, clear, λ j p q _. before j p q)
  ]
]

-- What `new_block` does when it takes the zone `z`.
pub record Taken (d : Device) (z : ℕ) (d' : Device) : Type 0 where
  pub bit : ℕ
  pub zone : z ≡ bit + d.s_firstdatazone - 1
  pub low : d.s_firstdatazone ≤ z
  pub high : z < d.s_nzones
  pub idle : one_more (d.users z) ≡ 1
  pub first : FirstOf 8 0 d.has_zmap d.zmap (some bit)
  pub marked : (j : ℕ) → d'.zmap j ≡ (if j == bit then true else d.zmap j)
  pub zeros : (i : ℕ) → d'.word z i ≡ 0
  pub kept : (b i : ℕ) → b ≢ z → d'.word b i ≡ d.word b i
  pub readable : (b : ℕ) → d'.readable b ≡ (if b == z then true else d.readable b)
  pub users : (b : ℕ) → d'.users b ≡ (if b == z then some 0 else d.users b)
  pub freed : Device
  pub undone : free_block z d' ≡ done tt freed
  pub as_before : (j : ℕ) → freed.zmap j ≡ d.zmap j

-- The ends of `new_block`: no zone, with every zone of the map in use; no zone, since the first free
-- one is behind the end of the device; a zone; or a panic, since the zone has a user.
abbrev pub NewBlock : Device → Run ℕ → Type 0
NewBlock d (done zero d') =
    (FirstOf 8 0 d.has_zmap d.zmap none × (d' ≡ d))
    ⊎ ((bit : ℕ) × FirstOf 8 0 d.has_zmap d.zmap (some bit)
        × (d.s_nzones < bit + d.s_firstdatazone)
        × (d' ≡ record d { zmap = update d.zmap bit true }))
NewBlock d (done (suc n) d') = Taken d (suc n) d'
NewBlock d panicked =
    (bit : ℕ) × FirstOf 8 0 d.has_zmap d.zmap (some bit)
    × (bit + d.s_firstdatazone - 1 < d.s_nzones)
    × (one_more (d.users (bit + d.s_firstdatazone - 1)) ≢ 1)
NewBlock d fault = ⊥

module _ (d : Device) (here : d.mounted ≡ true) (data_zone : 1 ≤ d.s_firstdatazone)
    (zero_set : d.zmap 0 ≡ true) where
  mounted_test : not d.mounted ≡ false
  mounted_test = rw here

  wiped-Taken :
      (bit z : ℕ)
      → z ≡ bit + d.s_firstdatazone - 1
      → FirstOf 8 0 d.has_zmap d.zmap (some bit)
      → 0 < bit
      → z < d.s_nzones
      → one_more (d.users z) ≡ 1
      → Taken d z (wiped bit z d)
  unfolding free_block
  wiped-Taken bit z zone first pos_bit high idle =
      let (_, _, there, clear, _) = first in
      let same : z + 1 - d.s_firstdatazone ≡ bit = omega arith in
      let inside : (ltb z d.s_firstdatazone || leb d.s_nzones z) ≡ false = ground arith in
      let users_z : (wiped bit z d).users z ≡ some 0 = ground (arith, idle) in
      let set_bit : (wiped bit z d).zmap bit ≡ true = ground arith in
      record {
        bit = bit;
        zone = zone;
        low = omega arith;
        high = high;
        first = first;
        marked = λ j. refl;
        zeros = λ i. ground arith;
        kept = λ b i ne. ground arith;
        readable = λ b. refl;
        idle = idle;
        users = λ b. rw idle refl;
        freed = record (dropped z (wiped bit z d)) { zmap = update (wiped bit z d).zmap bit false };
        undone = rw (mounted_test, inside, users_z, same, there, set_bit);
        as_before = λ j. ground arith;
      }

  -- On a mounted device with the first bit of the map set, `new_block` has one of four ends. It gives 0
  -- and changes nothing when all bits are set; it gives 0 and leaves the bit set when the first free
  -- one is behind the end of the device; it panics when the zone of the first free bit is on the
  -- device and has a user, as getblk then counts more than one; and else it gives that zone. The bit
  -- is then set, the zone is all zero and without a user, the other zones and bits are as before, and
  -- `free_block` of it makes the map what it was.
  pub new_block-NewBlock : NewBlock d (new_block d)
  unfolding new_block
  new_block-NewBlock = elim (Option-cases (find_zero 8 0 d.has_zmap d.zmap)) [
    | inl e ↦ rw (mounted_test, e) (inl (rw e at (find_zero-FirstOf 8 0 d.has_zmap d.zmap), refl))
    | inr (bit, e) ↦
        let first : FirstOf 8 0 d.has_zmap d.zmap (some bit) =
          rw e at (find_zero-FirstOf 8 0 d.has_zmap d.zmap) in
        let pos_bit : 0 < bit = elim (Bool-cases (bit == 0)) [
          | inl same ↦ absurd (ground (arith, first.3, (==_iff bit 0).0 same, zero_set))
          | inr other ↦ ground arith
        ] in
        elim (Bool-cases (leb d.s_nzones (bit + d.s_firstdatazone - 1))) [
          | inl behind ↦ rw (mounted_test, e, behind) (inr (bit, first, ground arith, refl))
          | inr inside ↦ elim (Bool-cases (one_more (d.users (bit + d.s_firstdatazone - 1)) == 1)) [
            | inr busy ↦ rw (mounted_test, e, inside, busy) (bit, first, ground arith, ground arith)
            | inl idle ↦
                rw (mounted_test, e, inside, idle)
                  (taken bit _ refl first pos_bit (ground arith) (ground arith))
          ]
        ]
  ]
    where
      taken :
          (bit z : ℕ)
          → z ≡ bit + d.s_firstdatazone - 1
          → FirstOf 8 0 d.has_zmap d.zmap (some bit)
          → 0 < bit
          → z < d.s_nzones
          → one_more (d.users z) ≡ 1
          → NewBlock d (done z (wiped bit z d))
      taken bit zero zone first pos_bit high idle = absurd (omega arith)
      taken bit (suc n) zone first pos_bit high idle =
          wiped-Taken bit (suc n) zone first pos_bit high idle
