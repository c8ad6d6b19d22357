-- ===== src/Zones/Indirect.antt =====
-- fs/inode.c: the word of a list of zones that `_bmap` reads or makes.
use rhee_creatives_linux_v.Base.{
  ℕ, ◌+◌, ◌-◌, ◌%◌, ◌^◌, ◌≡◌, ◌≢◌, refl, sym, ◌∙◌, ◌⊎◌, inl, inr, some, Bool, true, false, not,
  ◌&&◌, ◌==◌, update, arith, Bool-cases, ==_iff,
}
use rhee_creatives_linux_v.Zones.{Device, done, one_more, hold, brelse, ind_zone}
use rhee_creatives_linux_v.Zones.Map.{
  InUse, Ready, Kept, Kept-InUse, Fresh, NewZone, new_block-NewZone,
}

pub brelse-one :
    (a b : ℕ) (e : Device)
    → e.users b ≡ some 1
    → brelse a b e ≡ done a (record e { users = update e.users b (some 0) })
brelse-one a b e h = rw (brelse, h)

-- What `ind_zone` on the block `b` does: it ends, and a zone that it gives is then the word `k` of the
-- block, an old one or a new one.
pub record IndZone (create : Bool) (b k : ℕ) (d : Device) : Type 0 where
  pub zone : ℕ
  pub after : Device
  pub runs : ind_zone create b k d ≡ done zone after
  pub ready : Ready after
  pub kept : Kept b d after
  pub others : (i : ℕ) → i ≢ k → after.word b i ≡ d.word b i
  pub unheld : one_more (after.users b) ≡ 1
  pub found : zone ≢ 0 → (after.readable b ≡ true) × (after.word b k ≡ zone)
  pub origin : zone ≢ 0 → (zone ≡ d.word b k) ⊎ Fresh zone d after

module _ (create : Bool) (b k : ℕ) (d : Device) (v : Ready d) (used : InUse d b)
    (alone : one_more (d.users b) ≡ 1) where
  abbrev held : Device
  held = hold b d

  abbrev released : Device → Device
  released e = record e { users = update e.users b (some 0) }

  held-Ready : Ready held
  held-Ready = record {
    here = v.here;
    data_zone = v.data_zone;
    zero_set = v.zero_set;
    nzones_le = v.nzones_le;
    idle = λ c low free. elim (Bool-cases (c == b)) [
      | inl same ↦
          let e : c ≡ b = (==_iff c b).0 same in
          let m : d.zmap (c + 1 - d.s_firstdatazone) ≡ true = rw e used.1 in absurd (ground arith)
      | inr other ↦ rw other (v.idle c low free)
    ];
  }

  released-Ready : (e : Device) → Ready e → InUse e b → Ready (released e)
  released-Ready e w (_, mark) = record {
    here = w.here;
    data_zone = w.data_zone;
    zero_set = w.zero_set;
    nzones_le = w.nzones_le;
    idle = λ c low free. elim (Bool-cases (c == b)) [
      | inl same ↦ rw same refl
      | inr other ↦ rw other (w.idle c low free)
    ];
  }

  -- The block given back after nothing but the reading.
  given_back :
      {z : ℕ}
      → (z ≢ 0 → (d.readable b ≡ true) × (d.word b k ≡ z))
      → ind_zone create b k d ≡ done z (released held)
      → IndZone create b k d
  given_back {z} shown runs = record {
    zone = z;
    after = released held;
    runs = runs;
    ready = released-Ready held held-Ready used;
    kept = record {
      first = refl;
      marks = λ j h. h;
      words = λ c i _ _. refl;
      reads = λ c h. h;
      users = λ c _. ground (arith, alone);
    };
    others = λ i _. refl;
    unheld = ground arith;
    found = shown;
    origin = λ ne. inl (sym (shown ne).1);
  }

  held_user : held.users b ≡ some 1
  held_user = ground (arith, alone)

  module _ (n : NewZone held) where
    open n use {zone, after, ready, kept, fresh, same_users}

    after-InUse : InUse after b
    after-InUse = Kept-InUse kept used

    after_user : after.users b ≡ some 1
    after_user = same_users b used ∙ held_user

    not_null : b ≢ 0
    not_null e = omega (arith, e, used.0, v.data_zone)

    released-Kept : Kept b d (released after)
    released-Kept = record {
      first = kept.first;
      marks = kept.marks;
      words = λ c i in_use ne. kept.words c i in_use (λ z. omega (arith, z, in_use.0, v.data_zone));
      reads = kept.reads;
      users = λ c in_use. elim (Bool-cases (c == b)) [
        | inl same ↦ let e : c ≡ b = (==_iff c b).0 same in rw (same, e, alone)
        | inr other ↦
            let old : held.users c ≡ d.users c = ground arith in
            rw (other, same_users c in_use, old)
      ];
    }

    old_words : (i : ℕ) → after.word b i ≡ d.word b i
    old_words i = kept.words b i used not_null

    abbrev filled : Device
    filled = record after { word = update after.word b (update (after.word b) k (zone % 2 ^ 16)) }

    not_made :
        (create && (d.word b k == 0)) ≡ true → d.readable b ≡ true → zone ≡ 0 → IndZone create b k d
    unfolding ind_zone
    not_made wanted reads no_zone =
        let reads' : not (d.readable b) ≡ false = rw reads in
        let no_test : (zone == 0) ≡ true = (==_iff zone 0).1 no_zone in
        record {
          zone = zone;
          after = released after;
          runs = rw (reads', wanted, n.runs, no_test, brelse-one zone b after after_user);
          ready = released-Ready after ready after-InUse;
          kept = released-Kept;
          others = λ i _. old_words i;
          unheld = ground arith;
          found = λ ne. absurd (ne no_zone);
          origin = λ ne. absurd (ne no_zone);
        }

    made :
        (create && (d.word b k == 0)) ≡ true → d.readable b ≡ true → zone ≢ 0 → IndZone create b k d
    unfolding ind_zone
    made wanted reads some_zone =
        let reads' : not (d.readable b) ≡ false = rw reads in
        let test : (zone == 0) ≡ false = ground arith in
        let f = fresh some_zone in
        let apart : b ≢ zone = f.unmarked b used in
        let small = f.small in
        record {
          zone = zone;
          after = released filled;
          runs = rw (reads', wanted, n.runs, test, brelse-one zone b filled after_user);
          ready = record {
            here = ready.here;
            data_zone = ready.data_zone;
            zero_set = ready.zero_set;
            nzones_le = ready.nzones_le;
            idle = (released-Ready after ready after-InUse).idle;
          };
          kept = record {
            first = kept.first;
            marks = kept.marks;
            words = λ c i in_use ne. ground (arith, released-Kept.words c i in_use ne);
            reads = kept.reads;
            users = released-Kept.users;
          };
          others = λ i ne. ground (arith, old_words i);
          unheld = ground arith;
          found = λ _. (kept.reads b reads, ground arith);
          origin = λ _. inr (record {
            small = f.small;
            marked = f.marked;
            unmarked = f.unmarked;
            reads = f.reads;
            unused = ground (arith, f.unused);
            zeros = λ i. ground (arith, f.zeros i);
          });
        }

  pub allocated-IndZone : IndZone create b k d
  unfolding ind_zone
  allocated-IndZone = elim (Bool-cases (d.readable b)) [
    | inr unreadable ↦
        let off : not (d.readable b) ≡ true = rw unreadable in
        given_back (λ ne. absurd (ne refl)) (rw (off, brelse-one 0 b held held_user))
    | inl reads ↦
        let on' : not (d.readable b) ≡ false = rw reads in
        elim (Bool-cases (create && (d.word b k == 0))) [
          | inr kept_one ↦
              given_back (λ _. (reads, refl))
                (rw (on', kept_one, brelse-one (d.word b k) b held held_user))
          | inl wanted ↦
              let n = new_block-NewZone held held-Ready in
              elim (Bool-cases (n.zone == 0)) [
                | inl nothing ↦ not_made n wanted reads ((==_iff n.zone 0).0 nothing)
                | inr something ↦ made n wanted reads (λ e. ground arith)
              ]
        ]
  ]
