-- ===== src/Truncate/Frees.antt =====
-- fs/truncate.c: the zones that `free_ind` and `free_dind` free.
use rhee_creatives_linux_v.Base.{
  ℕ, zero, suc, ◌+◌, ◌≡◌, refl, sym, ◌∙◌, ap, subst, Bool, false, ◌==◌, if◌then◌else◌, arith,
  Bool-cases, ==_iff, ==_refl, List, [], ◌∷◌, ◌++◌, has, Distinct, has-append, has_ne, inl, inr,
}
use rhee_creatives_linux_v.Zones.{Device, Run, done, and_then, free_block, hold, brelse}
use rhee_creatives_linux_v.Truncate.{free_words, free_ind, free_dind}
use rhee_creatives_linux_v.Truncate.Freed.{
  quiet, Owned, Freed, Frees, none-Freed, both-Freed, append-apart, part-Owned, rest-Owned,
  free_block-Frees, held-Freed,
}
use rhee_creatives_linux_v.Truncate.Lists.{
  list_words, ind_zones, dind_zones, Agree, list_words-stable, ind_zones-stable,
}

-- What is freed does not change what the rest shows.
pub rest-Agree :
    (xs ys : List ℕ) (d e : Device)
    → Distinct (xs ++ ys)
    → Freed xs d e
    → Agree d.word e.word d.readable e.readable ys
rest-Agree xs ys d e distinct v b h =
    let out = append-apart b xs ys distinct h in (v.word b out, v.readable b out)

module _ (free : ℕ → Device → Run (Unit {0})) (sub : (ℕ → ℕ → ℕ) → (ℕ → Bool) → ℕ → List ℕ)
    (stable : (word word' : ℕ → ℕ → ℕ) (readable readable' : ℕ → Bool) (z : ℕ)
      → Agree word word' readable readable' (sub word readable z)
      → sub word' readable' z ≡ sub word readable z)
    (frees : (z : ℕ) (d : Device)
      → Owned (sub d.word d.readable z) d
      → Frees (free z) (sub d.word d.readable z) d) where
  word-Frees :
      (z : ℕ) (d : Device)
      → Owned (if z == 0 then [] else sub d.word d.readable z) d
      → Frees
          (λ d'. if z == 0 then done tt d' else free z d')
          (if z == 0 then [] else sub d.word d.readable z)
          d
  word-Frees z d o = elim (Bool-cases (z == 0)) [
    | inl none_there ↦ rw none_there (d, refl, none-Freed d)
    | inr some_there ↦ rw some_there (frees z d (rw some_there at o))
  ]

  words-Frees :
      (k i block : ℕ) (d : Device)
      → has block (list_words k i (sub d.word d.readable) (d.word block)) ≡ false
      → Owned (list_words k i (sub d.word d.readable) (d.word block)) d
      → Frees (free_words k i free block) (list_words k i (sub d.word d.readable) (d.word block)) d
  unfolding free_words list_words
  words-Frees zero i block d out o = (d, refl, none-Freed d)
  words-Frees (suc k) i block d out o =
      let here = if d.word block i == 0 then [] else sub d.word d.readable (d.word block i) in
      let later = list_words k (i + 1) (sub d.word d.readable) (d.word block) in
      let (e, run, v) = word-Frees (d.word block i) d (part-Owned here later d o) in
      let words : e.word block ≡ d.word block =
        v.word block (ground (arith, has-append block here later)) in
      let same : list_words k (i + 1) (sub e.word e.readable) (e.word block) ≡ later =
        ap (list_words k (i + 1) (sub e.word e.readable)) words
        ∙ list_words-stable sub d.word e.word d.readable e.readable
            (stable d.word e.word d.readable e.readable) k (i + 1) (d.word block)
            (rest-Agree here later d e o.distinct v) in
      let (g, run', w) =
        words-Frees k (i + 1) block e
          (subst (λ l. has block l ≡ false) (sym same)
            (ground (arith, has-append block here later)))
          (subst (λ l. Owned l e) (sym same) (rest-Owned here later d e o v)) in
      (
        g,
        ap (λ r. and_then r (λ _ d'. free_words k (i + 1) free block d')) run ∙ run',
        both-Freed here later d e g v (subst (λ l. Freed l e g) same w),
      )

  held-Owned :
      (block : ℕ) (d : Device) (xs : List ℕ) → Owned (xs ++ block ∷ []) d → Owned xs (hold block d)
  held-Owned block d xs o =
      let p = part-Owned xs (block ∷ []) d o in
      let apart : has block xs ≡ false =
        append-apart block xs (block ∷ []) o.distinct (rw (==_refl block) refl) in
      record {
        mounted = p.mounted;
        distinct = p.distinct;
        low = p.low;
        high = p.high;
        present = p.present;
        marked = p.marked;
        idle = λ b h. elim (Bool-cases (b == block)) [
          | inl same ↦ absurd (has_ne b block xs h apart ((==_iff b block).0 same))
          | inr other ↦ rw other (p.idle b h)
        ];
      }

  -- Both `free_ind` and `free_dind`, on a block that is there.
  listed-Frees :
      (block : ℕ) (d : Device)
      → Owned
          ((if d.readable block
              then list_words 512 0 (sub d.word d.readable) (d.word block)
              else [])
            ++ block ∷ [])
          d
      → Frees
          (λ d0.
            and_then
              (if d0.readable block
                then and_then
                    (free_words 512 0 free block (hold block d0))
                    (λ _ d'. brelse tt block d')
                else brelse tt block (hold block d0))
              (λ _ d'. free_block block d'))
          ((if d.readable block
              then list_words 512 0 (sub d.word d.readable) (d.word block)
              else [])
            ++ block ∷ [])
          d
  listed-Frees block d o =
      let xs =
        if d.readable block then list_words 512 0 (sub d.word d.readable) (d.word block) else [] in
      let idle =
        o.idle block (rw (has-append block xs (block ∷ []), ==_refl block) (ground arith)) in
      let apart : has block xs ≡ false =
        append-apart block xs (block ∷ []) o.distinct (rw (==_refl block) refl) in
      let (e, run, v) = inside idle apart (held-Owned block d xs o) in
      let (g, run', w) = free_block-Frees block e (rest-Owned xs (block ∷ []) d e o v) in
      (
        g,
        ap (λ r. and_then r (λ _ d'. free_block block d')) run ∙ run',
        both-Freed xs (block ∷ []) d e g v w,
      )
    where
      inside :
          quiet (d.users block) ≡ 0
          → has block (
              if d.readable block
              then list_words 512 0 (sub d.word d.readable) (d.word block)
              else [])
            ≡ false
          → Owned
              (if d.readable block
                then list_words 512 0 (sub d.word d.readable) (d.word block)
                else [])
              (hold block d)
          → Frees
              (λ d0.
                if d0.readable block
                then and_then
                    (free_words 512 0 free block (hold block d0))
                    (λ _ d'. brelse tt block d')
                else brelse tt block (hold block d0))
              (if d.readable block
                then list_words 512 0 (sub d.word d.readable) (d.word block)
                else [])
              d
      inside idle out own = elim (Bool-cases (d.readable block)) [
        | inl there ↦
            let words = list_words 512 0 (sub d.word d.readable) (d.word block) in
            let (e, run, v) =
              words-Frees 512 0 block (hold block d) (rw there at out) (rw there at own) in
            let (g, run', w) = held-Freed block d e words idle v in
            rw there (g, ap (λ r. and_then r (λ _ d'. brelse tt block d')) run ∙ run', w)
        | inr bad ↦
            let (g, run, w) =
              held-Freed block d (hold block d) [] idle (none-Freed (hold block d)) in
            rw bad (g, run, w)
      ]

pub free_ind-Frees :
    (block : ℕ) (d : Device)
    → Owned (ind_zones d.word d.readable block) d
    → Frees (free_ind block) (ind_zones d.word d.readable block) d
unfolding free_ind
free_ind-Frees block d o = elim (Bool-cases (block == 0)) [
  | inl none_there ↦ rw (free_ind, none_there) (d, refl, none-Freed d)
  | inr there ↦
      rw (free_ind, there)
        (listed-Frees free_block (λ _ _ z. z ∷ []) (λ _ _ _ _ _ _. refl) free_block-Frees block d
          (rw there at o))
]

pub free_dind-Frees :
    (block : ℕ) (d : Device)
    → Owned (dind_zones d.word d.readable block) d
    → Frees (free_dind block) (dind_zones d.word d.readable block) d
unfolding free_dind
free_dind-Frees block d o = elim (Bool-cases (block == 0)) [
  | inl none_there ↦ rw (free_dind, none_there) (d, refl, none-Freed d)
  | inr there ↦
      rw (free_dind, there)
        (listed-Frees free_ind ind_zones ind_zones-stable free_ind-Frees block d (rw there at o))
]
