-- ===== src/Zones/Blocks.antt =====
-- fs/inode.c: the block that `create_block` makes for a file is the one that `bmap` finds.
use rhee_creatives_linux_v.Base.{
  ℕ, ◌+◌, ◌-◌, ◌*◌, ◌/◌, ◌%◌, ◌^◌, ◌<◌, ◌≡◌, ◌≢◌, refl, sym, ◌∙◌, ap, subst, ◌⊎◌, inl, inr, some,
  true, false, not, ◌==◌, ltb, leb, update, update_self, arith, Bool-cases, bit_and,
}
use rhee_creatives_linux_v.Zones.{
  Device, done, one_more, Node, own_zone, hold, ind_zone, bmap_block, bmap, create_block,
}
use rhee_creatives_linux_v.Zones.Map.{
  InUse, Ready, Kept, Kept-refl, Kept-InUse, Fresh, NewZone, new_block-NewZone,
}
use rhee_creatives_linux_v.Zones.Indirect.{IndZone, allocated-IndZone, brelse-one}

-- A zone in use that has no other user, which is so between two calls.
abbrev pub Root : Device → ℕ → Type 0
Root d b = InUse d b × (one_more (d.users b) ≡ 1)

-- The blocks of zones of an inode are zones in use, and the double indirect block is none of those
-- that it lists.
pub record IsTree (inode : Node) (d : Device) : Type 0 where
  pub single : inode.i_zone 7 ≢ 0 → Root d (inode.i_zone 7)
  pub double : inode.i_zone 8 ≢ 0 → Root d (inode.i_zone 8)
  pub second :
      inode.i_zone 8 ≢ 0
      → (k : ℕ) → d.word (inode.i_zone 8) k ≢ 0
      → Root d (d.word (inode.i_zone 8) k) × (inode.i_zone 8 ≢ d.word (inode.i_zone 8) k)

Root-Kept : {out b : ℕ} {d d' : Device} → Kept out d d' → Root d b → Root d' b
Root-Kept {b = b} kept (used, alone) = (Kept-InUse kept used, kept.users b used ∙ alone)

Root-Fresh : {b : ℕ} {d d' : Device} → Fresh b d d' → Root d' b
Root-Fresh f = (f.marked, ap one_more f.unused)

-- A word of a block that can be read.
ind_zone-read :
    (b k : ℕ) (d : Device)
    → d.readable b ≡ true
    → one_more (d.users b) ≡ 1
    → (d' : Device) × (ind_zone false b k d ≡ done (d.word b k) d')
      × ((c i : ℕ) → d'.word c i ≡ d.word c i)
      × ((c : ℕ) → d'.readable c ≡ d.readable c)
      × ((c : ℕ) → one_more (d'.users c) ≡ one_more (d.users c))
unfolding ind_zone
ind_zone-read b k d reads alone =
    let on : not (d.readable b) ≡ false = rw reads in
    let user : (hold b d).users b ≡ some 1 = ground (arith, alone) in
    (
      record (hold b d) { users = update (hold b d).users b (some 0) },
      rw (on, brelse-one (d.word b k) b (hold b d) user),
      λ c i. refl,
      λ c. refl,
      λ c. ground (arith, alone),
    )

-- The zone `k` of the inode afterwards: as it was, or new.
pub record OwnZone (now k : ℕ) (inode : Node) (d : Device) : Type 0 where
  pub node : Node
  pub after : Device
  pub runs : own_zone true now k inode d ≡ done node after
  pub ready : Ready after
  pub kept : Kept 0 d after
  pub others : (j : ℕ) → j ≢ k → node.i_zone j ≡ inode.i_zone j
  pub origin :
      node.i_zone k ≢ 0
      → ((node.i_zone k ≡ inode.i_zone k) × (inode.i_zone k ≢ 0)) ⊎ Fresh (node.i_zone k) d after

module _ (now k : ℕ) (inode : Node) (d : Device) (v : Ready d) where
  allocated-OwnZone : OwnZone now k inode d
  unfolding own_zone
  allocated-OwnZone = elim (Bool-cases (inode.i_zone k == 0)) [
    | inr there ↦ record {
      node = inode;
      after = d;
      runs = rw there;
      ready = v;
      kept = Kept-refl d;
      others = λ j _. refl;
      origin = λ ne. inl (refl, ne);
    }
    | inl absent ↦ made (new_block-NewZone d v) absent
  ]
    where
      made : NewZone d → (inode.i_zone k == 0) ≡ true → OwnZone now k inode d
      made n absent =
          let i : Node = record inode { i_zone = update inode.i_zone k (n.zone % 2 ^ 16) } in
          elim (Bool-cases (n.zone % 2 ^ 16 == 0)) [
            | inl nothing ↦ record {
              node = i;
              after = n.after;
              runs = rw (absent, n.runs, nothing);
              ready = n.ready;
              kept = n.kept;
              others = λ j ne. ground arith;
              origin = λ ne. absurd (ground arith);
            }
            | inr something ↦
                let f = n.fresh (λ e. ground arith) in
                let same : n.zone % 2 ^ 16 ≡ n.zone = omega (arith, f.small) in
                record {
                  node = record i { i_dirt = true; i_ctime = now };
                  after = n.after;
                  runs = rw (absent, n.runs, something);
                  ready = n.ready;
                  kept = n.kept;
                  others = λ j ne. ground arith;
                  origin = λ ne. inr (
                      subst (λ z. Fresh z d n.after) (sym (update_self inode.i_zone k _ ∙ same)) f);
                }
          ]

-- `create_block` ends, and what it gives is what `bmap` gives from then on.
pub record Created (now n : ℕ) (inode : Node) (d : Device) : Type 0 where
  pub zone : ℕ
  pub node : Node
  pub after : Device
  pub runs : create_block now n inode d ≡ done (zone, node) after
  pub ready : Ready after
  pub again : zone ≢ 0 → (d' : Device) × (bmap now n node after ≡ done (zone, node) d')

own_zone-false :
    (now k : ℕ) (inode : Node) (d : Device) → own_zone false now k inode d ≡ done inode d
unfolding own_zone
own_zone-false now k inode d = refl

module _ (now n : ℕ) (inode : Node) (d : Device) (v : Ready d) (tree : IsTree inode d)
    (small : n < 7 + 512 + 512 * 512) where
  in_range : leb (7 + 512 + 512 * 512) n ≡ false
  in_range = ground arith

  direct : ltb n 7 ≡ true → Created now n inode d
  unfolding create_block bmap bmap_block
  direct low =
      let o = allocated-OwnZone now n inode d v in
      record {
        zone = o.node.i_zone n;
        node = o.node;
        after = o.after;
        runs = rw (in_range, low, o.runs);
        ready = o.ready;
        again = λ _. (o.after, rw (in_range, low, own_zone-false now n o.node o.after));
      }

  module _ (far : ltb n 7 ≡ false) (near : ltb (n - 7) 512 ≡ true) where
    in_single : (o : OwnZone now 7 inode d) → o.node.i_zone 7 ≢ 0 → Root o.after (o.node.i_zone 7)
    in_single o ne = elim (o.origin ne) [
      | inl (same, old) ↦ Root-Kept o.kept (subst (Root d) (sym same) (tree.single old))
      | inr fresh ↦ Root-Fresh fresh
    ]

    listed :
        (o : OwnZone now 7 inode d)
        → (o.node.i_zone 7 == 0) ≡ false
        → IndZone true (o.node.i_zone 7) (n - 7) o.after
        → Created now n inode d
    unfolding create_block bmap bmap_block
    listed o block i = record {
      zone = i.zone;
      node = o.node;
      after = i.after;
      runs = rw (in_range, far, near, o.runs, block, i.runs);
      ready = i.ready;
      again = λ ne.
          let (reads, word) = i.found ne in
          let (d', runs, _, _, _) =
            ind_zone-read (o.node.i_zone 7) (n - 7) i.after reads i.unheld in
          (d', rw (in_range, far, near, own_zone-false now 7 o.node i.after, block, runs, word));
    }

    single : OwnZone now 7 inode d → Created now n inode d
    unfolding create_block bmap_block
    single o = elim (Bool-cases (o.node.i_zone 7 == 0)) [
      | inl nothing ↦ record {
        zone = 0;
        node = o.node;
        after = o.after;
        runs = rw (in_range, far, near, o.runs, nothing);
        ready = o.ready;
        again = λ ne. absurd (ne refl);
      }
      | inr block ↦
          let (used, alone) = in_single o (λ e. ground arith) in
          listed o block
            (allocated-IndZone true (o.node.i_zone 7) (n - 7) o.after o.ready used alone)
    ]

  module _ (far : ltb n 7 ≡ false) (farther : ltb (n - 7) 512 ≡ false) where
    abbrev upper : ℕ
    upper = (n - 7 - 512) / 512

    abbrev lower : ℕ
    lower = bit_and (n - 7 - 512) 511

    in_double : (o : OwnZone now 8 inode d) → o.node.i_zone 8 ≢ 0 → Root o.after (o.node.i_zone 8)
    in_double o ne = elim (o.origin ne) [
      | inl (same, old) ↦ Root-Kept o.kept (subst (Root d) (sym same) (tree.double old))
      | inr fresh ↦ Root-Fresh fresh
    ]

    -- The block of the second level.
    in_second :
        (o : OwnZone now 8 inode d) (some_zone : o.node.i_zone 8 ≢ 0)
        → (i : IndZone true (o.node.i_zone 8) upper o.after) → i.zone ≢ 0
        → Root i.after i.zone × (o.node.i_zone 8 ≢ i.zone)
    in_second o some_zone i ne = elim (i.origin ne) [
      | inr fresh ↦ (Root-Fresh fresh, fresh.unmarked _ (in_double o some_zone).0)
      | inl listed ↦ elim (o.origin some_zone) [
        | inr fresh ↦ absurd (ne (listed ∙ fresh.zeros upper))
        | inl (same, old) ↦
            let (used, _) = tree.double old in
            let not_null : inode.i_zone 8 ≢ 0 = old in
            let word : i.zone ≡ d.word (inode.i_zone 8) upper =
              listed
              ∙ ap (λ b. o.after.word b upper) same
              ∙ o.kept.words (inode.i_zone 8) upper used not_null in
            let (root, apart) = tree.second old upper (λ e. ne (word ∙ e)) in
            let root' = Root-Kept o.kept root in
            let away : d.word (inode.i_zone 8) upper ≢ o.node.i_zone 8 =
              λ e. apart (sym (e ∙ same)) in
            (subst (Root i.after) (sym word) (Root-Kept i.kept root'), λ e. away (sym (e ∙ word)))
      ]
    ]

    -- Both levels are there.
    listed_twice :
        (o : OwnZone now 8 inode d)
        → (o.node.i_zone 8 == 0) ≡ false
        → (i : IndZone true (o.node.i_zone 8) upper o.after) → (i.zone == 0) ≡ false
        → IndZone true i.zone lower i.after
        → Created now n inode d
    unfolding create_block bmap bmap_block
    listed_twice o block i next j =
        let b : ℕ = o.node.i_zone 8 in
        let some_b : b ≢ 0 = λ e. ground arith in
        let some_z : i.zone ≢ 0 = λ e. ground arith in
        let (_, apart) = in_second o some_b i some_z in
        let (reads, word) = i.found some_z in
        let used : InUse i.after b = Kept-InUse i.kept (in_double o some_b).0 in
        let reads' = j.kept.reads b reads in
        let word' : j.after.word b upper ≡ i.zone = j.kept.words b upper used apart ∙ word in
        let alone = j.kept.users b used ∙ i.unheld in
        record {
          zone = j.zone;
          node = o.node;
          after = j.after;
          runs = rw (in_range, far, farther, o.runs, block, i.runs, next, j.runs);
          ready = j.ready;
          again = λ ne.
              let (d1, first, words, readable, users) =
                ind_zone-read b upper j.after reads' alone in
              let (reads_z, word_z) = j.found ne in
              let (d2, second, _, _, _) =
                ind_zone-read i.zone lower d1 (readable i.zone ∙ reads_z)
                  (users i.zone ∙ j.unheld) in
              let shown : d1.word i.zone lower ≡ j.zone = words i.zone lower ∙ word_z in
              (
                d2,
                rw (
                  in_range,
                  far,
                  farther,
                  own_zone-false now 8 o.node j.after,
                  block,
                  first,
                  word',
                  next,
                  second,
                  shown,
                ),
              );
        }

    in_first :
        (o : OwnZone now 8 inode d)
        → (o.node.i_zone 8 == 0) ≡ false
        → IndZone true (o.node.i_zone 8) upper o.after
        → Created now n inode d
    unfolding create_block bmap_block
    in_first o block i = elim (Bool-cases (i.zone == 0)) [
      | inl nothing ↦ record {
        zone = 0;
        node = o.node;
        after = i.after;
        runs = rw (in_range, far, farther, o.runs, block, i.runs, nothing);
        ready = i.ready;
        again = λ ne. absurd (ne refl);
      }
      | inr next ↦
          let ((used, alone), _) = in_second o (λ e. ground arith) i (λ e. ground arith) in
          listed_twice o block i next
            (allocated-IndZone true i.zone lower i.after i.ready used alone)
    ]

    twice : OwnZone now 8 inode d → Created now n inode d
    unfolding create_block bmap_block
    twice o = elim (Bool-cases (o.node.i_zone 8 == 0)) [
      | inl nothing ↦ record {
        zone = 0;
        node = o.node;
        after = o.after;
        runs = rw (in_range, far, farther, o.runs, nothing);
        ready = o.ready;
        again = λ ne. absurd (ne refl);
      }
      | inr block ↦
          let (used, alone) = in_double o (λ e. ground arith) in
          in_first o block
            (allocated-IndZone true (o.node.i_zone 8) upper o.after o.ready used alone)
    ]

  -- For a block of the file below the bound, `create_block` ends without a panic, and a zone that it
  -- gives is the one that `bmap` finds afterwards: directly, through one list of zones or through two.
  pub create_block-bmap : Created now n inode d
  create_block-bmap = elim (Bool-cases (ltb n 7)) [
    | inl low ↦ direct low
    | inr far ↦ elim (Bool-cases (ltb (n - 7) 512)) [
      | inl near ↦ single far near (allocated-OwnZone now 7 inode d v)
      | inr farther ↦ twice far farther (allocated-OwnZone now 8 inode d v)
    ]
  ]
