-- ===== src/Truncate/Whole.antt =====
-- fs/truncate.c: what is left of a file after `truncate`.
use rhee_creatives_linux_v.Base.{
  ℕ, has-append, zero, suc, ◌+◌, ◌≤◌, ◌<◌, ◌≡◌, refl, sym, ◌∙◌, ap, ap₂, subst, true, false, not,
  ◌==◌, ltb, if◌then◌else◌, update, arith, Bool-cases, ==_iff, List, [], ◌∷◌, ◌++◌, inl, inr,
}
use rhee_creatives_linux_v.Zones.{Device, done, and_then, free_block, Node}
use rhee_creatives_linux_v.Truncate.{
  free_ind, free_dind, free_direct, has_zones, without_zones, truncate,
}
use rhee_creatives_linux_v.Truncate.Freed.{
  Owned, Freed, none-Freed, both-Freed, part-Owned, rest-Owned, free_block-Frees,
}
use rhee_creatives_linux_v.Truncate.Lists.{
  ind_zones, dind_zones, Agree, ind_zones-stable, dind_zones-stable,
}
use rhee_creatives_linux_v.Truncate.Frees.{rest-Agree, free_ind-Frees, free_dind-Frees}

-- The direct zones of an inode, `k` of them from the zone `i` on.
unfoldable pub direct_zones : ℕ → ℕ → (ℕ → ℕ) → List ℕ
direct_zones zero i z = []
direct_zones (suc k) i z = (if z i == 0 then [] else z i ∷ []) ++ direct_zones k (i + 1) z

direct_zones-agree :
    (k i : ℕ) (z y : ℕ → ℕ)
    → ((j : ℕ) → i ≤ j → y j ≡ z j)
    → direct_zones k i y ≡ direct_zones k i z
unfolding direct_zones
direct_zones-agree zero i z y same = refl
direct_zones-agree (suc k) i z y same =
    ap₂ (λ a l. (if a == 0 then [] else a ∷ []) ++ l) (same i (omega arith))
      (direct_zones-agree k (i + 1) z y (λ j le. same j (omega (arith, le))))

-- Of the inode the zones from `i` on, `k` of them, are 0.
pub record Zeroed (k i : ℕ) (inode inode' : Node) : Type 0 where
  pub zeros : (j : ℕ) → i ≤ j → j < i + k → inode'.i_zone j ≡ 0
  pub before : (j : ℕ) → j < i → inode'.i_zone j ≡ inode.i_zone j
  pub behind : (j : ℕ) → i + k ≤ j → inode'.i_zone j ≡ inode.i_zone j
  pub mode : inode'.i_mode ≡ inode.i_mode

abbrev Cut : ℕ → ℕ → Node → Device → Type 0
Cut k i inode d =
    (inode' : Node) × (d' : Device) × (free_direct k i inode d ≡ done inode' d')
    × Freed (direct_zones k i inode.i_zone) d d'
    × Zeroed k i inode inode'

abbrev cut : ℕ → Node → Node
cut i inode = record inode { i_zone = update inode.i_zone i 0 }

zone-Frees :
    (i : ℕ) (inode : Node) (d : Device)
    → Owned (if inode.i_zone i == 0 then [] else inode.i_zone i ∷ []) d
    → (inode' : Node) × (d' : Device) × ((if inode.i_zone i == 0
          then done inode d
          else and_then (free_block (inode.i_zone i) d) (λ _ d'. done (cut i inode) d'))
        ≡ done inode' d')
      × Freed (if inode.i_zone i == 0 then [] else inode.i_zone i ∷ []) d d'
      × Zeroed 1 i inode inode'
zone-Frees i inode d o = elim (Bool-cases (inode.i_zone i == 0)) [
  | inl none_there ↦
      let z : inode.i_zone i ≡ 0 = (==_iff (inode.i_zone i) 0).0 none_there in
      rw none_there (
        inode,
        d,
        refl,
        none-Freed d,
        record {
          zeros = λ j low high. let e : j ≡ i = omega (arith, low, high) in ap inode.i_zone e ∙ z;
          before = λ j low. refl;
          behind = λ j low. refl;
          mode = refl;
        },
      )
  | inr there ↦
      let (e, run, v) = free_block-Frees (inode.i_zone i) d (rw there at o) in
      rw there (
        cut i inode,
        e,
        ap (λ r. and_then r (λ _ d'. done (cut i inode) d')) run,
        v,
        record {
          zeros = λ j low high. let e : (j == i) ≡ true = ground (arith, low, high) in rw e refl;
          before = λ j low. let e : (j == i) ≡ false = ground (arith, low) in rw e refl;
          behind = λ j low. let e : (j == i) ≡ false = ground (arith, low) in rw e refl;
          mode = refl;
        },
      )
]

direct-Cut :
    (k i : ℕ) (inode : Node) (d : Device)
    → Owned (direct_zones k i inode.i_zone) d
    → Cut k i inode d
unfolding free_direct direct_zones
direct-Cut zero i inode d o = (
  inode,
  d,
  refl,
  none-Freed d,
  record {
    zeros = λ j low high. absurd (omega (arith, low, high));
    before = λ j low. refl;
    behind = λ j low. refl;
    mode = refl;
  },
)
direct-Cut (suc k) i inode d o =
    let here = if inode.i_zone i == 0 then [] else inode.i_zone i ∷ [] in
    let later = direct_zones k (i + 1) inode.i_zone in
    let (n, e, run, v, one) = zone-Frees i inode d (part-Owned here later d o) in
    let same : direct_zones k (i + 1) n.i_zone ≡ later =
      direct_zones-agree k (i + 1) inode.i_zone n.i_zone (λ j low. one.behind j low) in
    let (n', g, run', w, rest) =
      direct-Cut k (i + 1) n e
        (subst (λ l. Owned l e) (sym same) (rest-Owned here later d e o v)) in
    (
      n',
      g,
      ap (λ r. and_then r (λ m d'. free_direct k (i + 1) m d')) run ∙ run',
      both-Freed here later d e g v (subst (λ l. Freed l e g) same w),
      record {
        zeros = λ j low high. elim (Bool-cases (j == i)) [
          | inl first ↦
              let at : j ≡ i = (==_iff j i).0 first in
              rest.before j (omega (arith, at)) ∙ one.zeros j low (omega (arith, at))
          | inr other ↦ rest.zeros j (ground (arith, other, low)) (omega (arith, high))
        ];
        before = λ j low. rest.before j (omega (arith, low)) ∙ one.before j low;
        behind = λ j low. rest.behind j (omega (arith, low)) ∙ one.behind j (omega (arith, low));
        mode = rest.mode ∙ one.mode;
      },
    )

-- All zones of a file.
abbrev pub file_zones : Node → Device → List ℕ
file_zones inode d =
    direct_zones 7 0 inode.i_zone
    ++ (ind_zones d.word d.readable (inode.i_zone 7)
        ++ dind_zones d.word d.readable (inode.i_zone 8))

-- The end of `truncate`.
pub record Truncated (now : ℕ) (inode : Node) (d : Device) : Type 0 where
  pub after : Node
  pub device : Device
  pub runs : truncate now inode d ≡ done after device
  pub zones : (j : ℕ) → j < 9 → after.i_zone j ≡ 0
  pub size : after.i_size ≡ 0
  pub dirt : after.i_dirt ≡ true
  pub mtime : after.i_mtime ≡ now
  pub ctime : after.i_ctime ≡ now
  pub mode : after.i_mode ≡ inode.i_mode
  pub freed : Freed (file_zones inode d) d device

truncate-done :
    (now : ℕ) (inode n : Node) (d e g h : Device)
    → has_zones inode.i_mode ≡ true
    → free_direct 7 0 inode d ≡ done n e
    → free_ind (n.i_zone 7) e ≡ done tt g
    → free_dind (n.i_zone 8) g ≡ done tt h
    → truncate now inode d ≡ done (without_zones now n) h
unfolding truncate
truncate-done now inode n d e g h kind run run_ind run_dind =
    let regular : not (has_zones inode.i_mode) ≡ false = rw kind refl in
    rw (truncate, regular, run, run_ind, run_dind) refl

-- On a regular file or a directory whose zones, the lists that can be read and what they list included,
-- are different, marked zones of the device that no one uses, `truncate` ends without a panic; then
-- exactly these zones are free in the map, a freed zone that had a buffer shows what the disk has, the
-- other blocks and all users are as before, and the inode has no zone, the size 0 and the time `now`,
-- and is dirty.
pub truncate-Truncated :
    (now : ℕ) (inode : Node) (d : Device)
    → has_zones inode.i_mode ≡ true
    → Owned (file_zones inode d) d
    → Truncated now inode d
truncate-Truncated now inode d kind o =
    let xs = direct_zones 7 0 inode.i_zone in
    let ys = ind_zones d.word d.readable (inode.i_zone 7) in
    let zs = dind_zones d.word d.readable (inode.i_zone 8) in
    let (n, e, run, v, cleared) = direct-Cut 7 0 inode d (part-Owned xs (ys ++ zs) d o) in
    let agree = rest-Agree xs (ys ++ zs) d e o.distinct v in
    let rest = rest-Owned xs (ys ++ zs) d e o v in
    let ind_same : ind_zones e.word e.readable (n.i_zone 7) ≡ ys =
      ap (ind_zones e.word e.readable) (cleared.behind 7 (omega arith))
      ∙ ind_zones-stable d.word e.word d.readable e.readable (inode.i_zone 7)
          (λ b m. agree b (rw (has-append b ys zs, m) refl)) in
    let dind_kept : dind_zones e.word e.readable (inode.i_zone 8) ≡ zs =
      dind_zones-stable d.word e.word d.readable e.readable (inode.i_zone 8)
        (λ b m. agree b (rw (has-append b ys zs, m) (ground arith))) in
    let (g, run_ind, w) =
      free_ind-Frees (n.i_zone 7) e
        (subst (λ l. Owned l e) (sym ind_same) (part-Owned ys zs e rest)) in
    let w' : Freed ys e g = subst (λ l. Freed l e g) ind_same w in
    let dind_same : dind_zones g.word g.readable (n.i_zone 8) ≡ zs =
      ap (dind_zones g.word g.readable) (cleared.behind 8 (omega arith))
      ∙ dind_zones-stable e.word g.word e.readable g.readable (inode.i_zone 8) (
          subst (Agree e.word g.word e.readable g.readable) (sym dind_kept)
            (rest-Agree ys zs e g rest.distinct w'))
      ∙ dind_kept in
    let (h, run_dind, u) =
      free_dind-Frees (n.i_zone 8) g
        (subst (λ l. Owned l g) (sym dind_same) (rest-Owned ys zs e g rest w')) in
    let u' : Freed zs g h = subst (λ l. Freed l g h) dind_same u in
    record {
      after = without_zones now n;
      device = h;
      runs = truncate-done now inode n d e g h kind run run_ind run_dind;
      zones = λ j low. elim (Bool-cases (ltb j 7)) [
        | inl direct ↦
            let lt : j < 7 = ground arith in
            let e7 : (j == 7) ≡ false = ground (arith, lt) in
            let e8 : (j == 8) ≡ false = ground (arith, lt) in
            rw (e7, e8) (cleared.zeros j (omega arith) (omega (arith, lt)))
        | inr list ↦ ground (arith, low, list)
      ];
      size = refl;
      dirt = refl;
      mtime = refl;
      ctime = refl;
      mode = cleared.mode;
      freed = both-Freed xs (ys ++ zs) d e h v (both-Freed ys zs e g h w' u');
    }
