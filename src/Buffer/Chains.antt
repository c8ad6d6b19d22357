-- ===== src/Buffer/Chains.antt =====
-- fs/buffer.c: the hash chains, and the operations on them as those of lists.
use rhee_creatives_linux_v.Base.{
  ℕ, ◌≡◌, ◌≢◌, sym, ◌∙◌, true, false, List, ◌==◌, if◌then◌else◌, arith, Bool-cases, ◌⊎◌, inl, inr,
  ==_iff, ==_refl, update, has, erase, Distinct, Seg, has_ne, has_of-erase, has_ne-erase,
  erase-gone, erase-absent, first-absent, erase-Distinct, frame-Seg, next-inside, prev-inside,
  erase-Seg, no_loop,
}
use rhee_creatives_linux_v.Buffer.{Cache, bucket_of, unlink_hash}
use rhee_creatives_linux_v.Buffer.Steps.{
  unlink_hash-Kept, unlink_hash-b_next, unlink_hash-b_prev, unlink_hash-hash_table,
}

abbrev pub next_in : Cache → ℕ → ℕ
next_in c i = (c.heads i).b_next

abbrev pub prev_in : Cache → ℕ → ℕ
prev_in c i = (c.heads i).b_prev

abbrev pub dev_of : Cache → ℕ → ℕ
dev_of c i = (c.heads i).b_dev

-- `chain k` lists the buffers whose device and block hash to `k`. A buffer in no chain has no
-- links, but for the one that is between two chains, which is `out`.
pub record Chains (c : Cache) (chain : ℕ → List ℕ) (out : ℕ) : Type 0 where
  pub linked : (k : ℕ) → Seg (next_in c) (prev_in c) (c.hash_table k) 0 (chain k) 0
  pub distinct : (k : ℕ) → Distinct (chain k)
  pub real : (k : ℕ) → has 0 (chain k) ≡ false
  pub filed : (k i : ℕ) → has i (chain k) ≡ true → (bucket_of c i ≡ k) × (dev_of c i ≢ 0)
  pub loose :
      (i : ℕ)
      → i ≢ out
      → i ≢ 0
      → has i (chain (bucket_of c i)) ≡ false
      → (next_in c i ≡ 0) × (prev_in c i ≡ 0)

-- The chains without `b`.
abbrev pub without : ℕ → Cache → (ℕ → List ℕ) → ℕ → List ℕ
without b c chain = update chain (bucket_of c b) (erase b (chain (bucket_of c b)))

module _ (b : ℕ) (c : Cache) (chain : ℕ → List ℕ) (v : Chains c chain 0) (ne : b ≢ 0) where
  abbrev mine : List ℕ
  mine = chain (bucket_of c b)

  -- The links of `b` stay in its chain, or are NULL.
  neighbour : (i : ℕ) → i ≢ 0 → (i ≡ next_in c b) ⊎ (i ≡ prev_in c b) → has i mine ≡ true
  neighbour i real e = elim (Bool-cases (has b mine)) [
    | inl member ↦ elim e [
      | inl after ↦
          elim (next-inside _ _ (next_in c) (prev_in c) 0 b _ 0 mine (v.linked _) member) [
            | inl end ↦ absurd (real (after ∙ end))
            | inr inside ↦ rw after inside
          ]
      | inr before ↦
          elim (prev-inside _ _ (next_in c) (prev_in c) 0 b _ 0 mine (v.linked _) member) [
            | inl (_, start) ↦ absurd (real (before ∙ start))
            | inr inside ↦ rw before inside
          ]
    ]
    | inr absent ↦
        let (no_next, no_prev) = v.loose b ne ne absent in
        elim e [
          | inl after ↦ absurd (real (after ∙ no_next))
          | inr before ↦ absurd (real (before ∙ no_prev))
        ]
  ]

  not_self : (next_in c b ≢ b) × (prev_in c b ≢ b)
  not_self = elim (Bool-cases (has b mine)) [
    | inl member ↦
        no_loop (next_in c) (prev_in c) (next_in c) (prev_in c) 0 b _ 0 mine (v.linked _)
          (v.distinct _) (v.real _) (v.real _) member
    | inr absent ↦
        let (no_next, no_prev) = v.loose b ne ne absent in
        (λ e. ne (sym e ∙ no_next), λ e. ne (sym e ∙ no_prev))
  ]

  -- A buffer of another chain keeps its links.
  spared :
      (i : ℕ)
      → i ≢ 0
      → has i mine ≡ false
      → (next_in (unlink_hash b c) i ≡ next_in c i) × (prev_in (unlink_hash b c) i ≡ prev_in c i)
  spared i real out =
      let no_next : i ≢ next_in c b = λ e. ground (arith, neighbour i real (inl e), out) in
      let no_prev : i ≢ prev_in c b = λ e. ground (arith, neighbour i real (inr e), out) in
      let (p, q) = not_self in
      (
        ground (arith, unlink_hash-b_next b c p i, no_prev),
        ground (arith, unlink_hash-b_prev b c p q i, no_next),
      )

  same_bucket : (i : ℕ) → bucket_of (unlink_hash b c) i ≡ bucket_of c i
  same_bucket i = let s = unlink_hash-Kept b c i in rw (s.dev, s.blocknr)

  pub unlink-linked :
      (k : ℕ)
      → Seg
          (next_in (unlink_hash b c))
          (prev_in (unlink_hash b c))
          ((unlink_hash b c).hash_table k)
          0
          (without b c chain k)
          0
  unlink-linked k =
      let (p, q) = not_self in
      let table = unlink_hash-hash_table b c p q k in
      elim (Bool-cases (k == bucket_of c b)) [
        | inr other ↦
            let unchanged : (unlink_hash b c).hash_table k ≡ c.hash_table k =
              ground (arith, table) in
            rw (other, unchanged)
              (frame-Seg (next_in c) (prev_in c) _ _ 0 _ 0 (chain k) (v.linked k)
                λ j i. spared j (has_ne j 0 (chain k) i (v.real k)) (elsewhere j k i other))
        | inl own ↦ let e : k ≡ bucket_of c b = (==_iff _ _).0 own in rw e (in_own)
      ]
    where
      elsewhere :
          (j k : ℕ) → has j (chain k) ≡ true → (k == bucket_of c b) ≡ false → has j mine ≡ false
      elsewhere j k i other = elim (Bool-cases (has j mine)) [
        | inl m ↦
            let e : k ≡ bucket_of c b = sym (v.filed k j i).0 ∙ (v.filed _ j m).0 in
            absurd (ground arith)
        | inr m ↦ m
      ]

      in_own :
          Seg
            (next_in (unlink_hash b c))
            (prev_in (unlink_hash b c))
            ((unlink_hash b c).hash_table (bucket_of c b))
            0
            (without b c chain (bucket_of c b))
            0
      in_own =
          let (p, q) = not_self in
          let table = unlink_hash-hash_table b c p q (bucket_of c b) in
          let nexts = unlink_hash-b_next b c p in
          let prevs = unlink_hash-b_prev b c p q in
          let own = ==_refl (bucket_of c b) in
          let s = v.linked (bucket_of c b) in
          elim (Bool-cases (has b mine)) [
            | inr absent ↦
                let (no_next, no_prev) = v.loose b ne ne absent in
                let first = first-absent (next_in c) (prev_in c) b _ 0 0 mine s absent ne in
                let unchanged : (unlink_hash b c).hash_table (bucket_of c b)
                    ≡ c.hash_table (bucket_of c b) =
                  ground (arith, table, first) in
                rw (own, erase-absent b mine absent, unchanged)
                  (frame-Seg (next_in c) (prev_in c) _ _ 0 _ 0 mine s
                    λ j i. (ground (arith, nexts j, no_prev), ground (arith, prevs j, no_next)))
            | inl member ↦
                let end = v.real (bucket_of c b) in
                let rest =
                  erase-Seg (next_in c) (prev_in c) (next_in (unlink_hash b c))
                    (prev_in (unlink_hash b c)) 0 b (λ j away. ground (arith, nexts j))
                    (λ j away. ground (arith, prevs j)) _ 0 mine s (v.distinct _) end end member
                    (λ m. ground (arith, nexts (prev_in c b), has_ne (prev_in c b) 0 mine m end))
                    (λ m. ground (arith, prevs (next_in c b), has_ne (next_in c b) 0 mine m end)) in
                let start : (unlink_hash b c).hash_table (bucket_of c b) ≡ (
                    if c.hash_table (bucket_of c b) == b
                    then next_in c b
                    else c.hash_table (bucket_of c b)) =
                  ground (arith, table) in
                rw (own, start) rest
          ]

  pub gone : (k : ℕ) → has b (without b c chain k) ≡ false
  gone k = elim (Bool-cases (k == bucket_of c b)) [
    | inl own ↦ rw own (erase-gone b mine (v.distinct _))
    | inr other ↦ rw other (elim (Bool-cases (has b (chain k))) [
      | inl m ↦ let e = (v.filed k b m).0 in absurd (ground arith)
      | inr m ↦ m
    ])
  ]

  pub still : (k i : ℕ) → has i (without b c chain k) ≡ true → has i (chain k) ≡ true
  still k i m = elim (Bool-cases (k == bucket_of c b)) [
    | inl own ↦
        let e : k ≡ bucket_of c b = (==_iff _ _).0 own in
        let m' : has i (erase b mine) ≡ true = rw own at m in rw e (has_of-erase i b mine m')
    | inr other ↦ let m' : has i (chain k) ≡ true = rw other at m in m'
  ]

  outside :
      (i : ℕ)
      → i ≢ b
      → has i (without b c chain (bucket_of c i)) ≡ false
      → has i (chain (bucket_of c i)) ≡ false
  outside i away out = elim (Bool-cases (bucket_of c i == bucket_of c b)) [
    | inl own ↦
        let e : bucket_of c i ≡ bucket_of c b = (==_iff _ _).0 own in
        let out' : has i (erase b mine) ≡ false = rw own at out in
        rw e (sym (has_ne-erase i b mine away) ∙ out')
    | inr other ↦ let out' : has i (chain (bucket_of c i)) ≡ false = rw other at out in out'
  ]

  not_mine : (i : ℕ) → has i (chain (bucket_of c i)) ≡ false → has i mine ≡ false
  not_mine i out = elim (Bool-cases (has i mine)) [
    | inl m ↦
        let e = (v.filed _ i m).0 in
        let m' : has i (chain (bucket_of c i)) ≡ true = rw e m in absurd (ground arith)
    | inr m ↦ m
  ]

  -- Taken out of its chain, `b` leaves the others as they were.
  pub unlink_hash-Chains : Chains (unlink_hash b c) (without b c chain) b
  unlink_hash-Chains = record {
    linked = unlink-linked;
    distinct = λ k. elim (Bool-cases (k == bucket_of c b)) [
      | inl own ↦ rw own (erase-Distinct b mine (v.distinct _))
      | inr other ↦ rw other (v.distinct k)
    ];
    real = λ k. elim (Bool-cases (has 0 (without b c chain k))) [
      | inl m ↦ absurd (ground (arith, still k 0 m, v.real k))
      | inr m ↦ m
    ];
    filed = λ k i m.
        let (bucket, device) = v.filed k i (still k i m) in
        (same_bucket i ∙ bucket, rw ((unlink_hash-Kept b c i).dev) device);
    loose = λ i away real out.
        let out' = outside i away (rw same_bucket at out) in
        let (no_next, no_prev) = v.loose i real real out' in
        let (p, q) = spared i real (not_mine i out') in (p ∙ no_next, q ∙ no_prev);
  }
