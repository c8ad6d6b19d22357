-- ===== src/Zones/Map.antt =====
-- fs/inode.c: `create_block` and then `bmap`.
use rhee_creatives_linux_v.Base.{
  ℕ, ◌+◌, ◌-◌, ◌^◌, ◌≤◌, ◌<◌, ◌≡◌, ◌≢◌, refl, inl, inr, some, true, false, not, ◌==◌, leb, update,
  arith, Bool-cases, Option-cases, ==_iff,
}
use rhee_creatives_linux_v.Zones.{Device, done, new_block, find_zero, wiped, one_more}
use rhee_creatives_linux_v.Zones.Alloc.{FirstOf, find_zero-FirstOf}

-- The zone is marked in the map.
abbrev pub InUse : Device → ℕ → Type 0
InUse d b = (d.s_firstdatazone ≤ b) × (d.zmap (b + 1 - d.s_firstdatazone) ≡ true)

-- A device as it is mounted: a zone that is not marked has no user.
pub record Ready (d : Device) : Type 0 where
  pub here : d.mounted ≡ true
  pub data_zone : 1 ≤ d.s_firstdatazone
  pub zero_set : d.zmap 0 ≡ true
  pub nzones_le : d.s_nzones ≤ 2 ^ 16
  pub idle :
      (b : ℕ)
      → d.s_firstdatazone ≤ b
      → d.zmap (b + 1 - d.s_firstdatazone) ≡ false
      → one_more (d.users b) ≡ 1

-- What the zones in use keep, but for the contents of `out`.
pub record Kept (out : ℕ) (d d' : Device) : Type 0 where
  pub first : d'.s_firstdatazone ≡ d.s_firstdatazone
  pub marks : (j : ℕ) → d.zmap j ≡ true → d'.zmap j ≡ true
  pub words : (b i : ℕ) → InUse d b → b ≢ out → d'.word b i ≡ d.word b i
  pub reads : (b : ℕ) → d.readable b ≡ true → d'.readable b ≡ true
  pub users : (b : ℕ) → InUse d b → one_more (d'.users b) ≡ one_more (d.users b)

pub Kept-InUse : {out b : ℕ} {d d' : Device} → Kept out d d' → InUse d b → InUse d' b
Kept-InUse {b = b} k (low, mark) = (rw (k.first) low, rw (k.first) (k.marks (b + 1 - _) mark))

-- A zone that was taken by `new_block`.
pub record Fresh (z : ℕ) (d d' : Device) : Type 0 where
  pub small : z < 2 ^ 16
  pub marked : InUse d' z
  pub unmarked : (b : ℕ) → InUse d b → b ≢ z
  pub reads : d'.readable z ≡ true
  pub unused : d'.users z ≡ some 0
  pub zeros : (i : ℕ) → d'.word z i ≡ 0

-- `new_block` ends, without a panic, with a new zone or with none.
pub record NewZone (d : Device) : Type 0 where
  pub zone : ℕ
  pub after : Device
  pub runs : new_block d ≡ done zone after
  pub ready : Ready after
  pub kept : Kept 0 d after
  pub fresh : zone ≢ 0 → Fresh zone d after
  pub same_users : (b : ℕ) → InUse d b → after.users b ≡ d.users b

pub Kept-refl : {out : ℕ} (d : Device) → Kept out d d
Kept-refl d = record {
  first = refl;
  marks = λ j h. h;
  words = λ b i _ _. refl;
  reads = λ b h. h;
  users = λ b _. refl;
}

module _ (d : Device) (v : Ready d) where
  open v use {here, data_zone, zero_set, nzones_le, idle}

  on : not d.mounted ≡ false
  on = rw here

  abbrev marked : ℕ → Device
  marked bit = record d { zmap = update d.zmap bit true }

  marked-Ready : (bit : ℕ) → Ready (marked bit)
  marked-Ready bit = record {
    here = here;
    data_zone = data_zone;
    zero_set = ground arith;
    nzones_le = nzones_le;
    idle = λ b low free. idle b low (ground arith);
  }

  marked-Kept : (bit : ℕ) → Kept 0 d (marked bit)
  marked-Kept bit = record {
    first = refl;
    marks = λ j h. ground arith;
    words = λ b i _ _. refl;
    reads = λ b h. h;
    users = λ b _. refl;
  }

  module _ (bit z : ℕ) (zone : z ≡ bit + d.s_firstdatazone - 1) (pos_bit : 0 < bit)
      (clear : d.zmap bit ≡ false) (high : z < d.s_nzones) (alone : one_more (d.users z) ≡ 1) where
    its_bit : z + 1 - d.s_firstdatazone ≡ bit
    its_bit = omega arith

    other_bit : (b : ℕ) → InUse d b → b ≢ z
    other_bit b (low, mark) e =
        let m : d.zmap (z + 1 - d.s_firstdatazone) ≡ true = rw (← e) mark in
        let m' : d.zmap bit ≡ true = rw its_bit at m in ground arith

    wiped-Ready : Ready (wiped bit z d)
    wiped-Ready = record {
      here = here;
      data_zone = data_zone;
      zero_set = ground arith;
      nzones_le = nzones_le;
      idle = λ b low free. elim (Bool-cases (b == z)) [
        | inl same ↦ rw (same, alone) refl
        | inr other ↦ rw other (idle b low (ground arith))
      ];
    }

    wiped-Kept : Kept 0 d (wiped bit z d)
    wiped-Kept = record {
      first = refl;
      marks = λ j h. ground arith;
      words = λ b i used _. ground (arith, other_bit b used);
      reads = λ b h. ground arith;
      users = λ b used. ground (arith, other_bit b used);
    }

    wiped-Fresh : Fresh z d (wiped bit z d)
    wiped-Fresh = record {
      small = omega arith;
      marked = (omega arith, rw its_bit (ground arith));
      unmarked = other_bit;
      reads = ground arith;
      unused = ground (arith, alone);
      zeros = λ i. ground arith;
    }

  pub new_block-NewZone : NewZone d
  unfolding new_block
  new_block-NewZone = elim (Option-cases (find_zero 8 0 d.has_zmap d.zmap)) [
    | inl e ↦ record {
      zone = 0;
      after = d;
      runs = rw (on, e);
      ready = v;
      kept = Kept-refl d;
      fresh = λ ne. absurd (ne refl);
      same_users = λ b _. refl;
    }
    | inr (bit, e) ↦
        let first : FirstOf 8 0 d.has_zmap d.zmap (some bit) =
          rw e at (find_zero-FirstOf 8 0 d.has_zmap d.zmap) in
        let clear = first.3 in
        let pos_bit : 0 < bit = elim (Bool-cases (bit == 0)) [
          | inl same ↦ absurd (ground (arith, clear, (==_iff bit 0).0 same, zero_set))
          | inr other ↦ ground arith
        ] in
        let z : ℕ = bit + d.s_firstdatazone - 1 in
        elim (Bool-cases (leb d.s_nzones z)) [
          | inl behind ↦ record {
            zone = 0;
            after = marked bit;
            runs = rw (on, e, behind);
            ready = marked-Ready bit;
            kept = marked-Kept bit;
            fresh = λ ne. absurd (ne refl);
            same_users = λ b _. refl;
          }
          | inr inside ↦
              let high : z < d.s_nzones = ground arith in
              let its_zone : z + 1 - d.s_firstdatazone ≡ bit = omega arith in
              let one : one_more (d.users z) ≡ 1 = idle z (omega arith) (rw its_zone clear) in
              let alone : (one_more (d.users z) == 1) ≡ true = (==_iff _ _).1 one in
              record {
                zone = z;
                after = wiped bit z d;
                runs = rw (on, e, inside, alone);
                ready = wiped-Ready bit z refl pos_bit clear high one;
                kept = wiped-Kept bit z refl pos_bit clear high one;
                fresh = λ _. wiped-Fresh bit z refl pos_bit clear high one;
                same_users =
                    λ b used. ground (arith, other_bit bit z refl pos_bit clear high one b used);
              }
        ]
  ]
