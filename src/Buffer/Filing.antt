-- ===== src/Buffer/Filing.antt =====
-- fs/buffer.c: a buffer put into its chain, and the search of a chain.
use rhee_creatives_linux_v.Base.{
  ℕ, zero, suc, ◌+◌, ◌≤◌, ◌<◌, ◌≡◌, ◌≢◌, refl, sym, ◌∙◌, ap, true, false, List, [], ◌∷◌, ◌==◌,
  if◌then◌else◌, arith, Bool-cases, ◌⊎◌, inl, inr, ==_iff, update, has, Distinct, Seg, has_ne,
  frame-Seg, first-absent, first-inside, length,
}
use rhee_creatives_linux_v.Buffer.{
  Cache, bucket_of, hashfn, link_hash, find_from, find_buffer, holds,
}
use rhee_creatives_linux_v.Buffer.Steps.{
  link_hash-Kept, link_hash-b_next, link_hash-b_prev, link_hash-hash_table,
}
use rhee_creatives_linux_v.Buffer.Chains.{Chains, next_in, prev_in, dev_of}

-- The chains with `b` in front.
abbrev pub with_first : ℕ → Cache → (ℕ → List ℕ) → ℕ → List ℕ
with_first b c chain = update chain (bucket_of c b) (b ∷ chain (bucket_of c b))

-- A buffer that no chain holds goes in front of its own.
module _ (b : ℕ) (c : Cache) (chain : ℕ → List ℕ) (v : Chains c chain b) (ne : b ≢ 0)
    (device : dev_of c b ≢ 0) (gone : (k : ℕ) → has b (chain k) ≡ false) where
  abbrev old : List ℕ
  old = chain (bucket_of c b)

  head_ne : c.hash_table (bucket_of c b) ≢ b
  head_ne = first-absent (next_in c) (prev_in c) b _ 0 0 old (v.linked _) (gone _) ne

  own_bucket : (i : ℕ) → bucket_of (link_hash b c) i ≡ bucket_of c i
  own_bucket i = let s = link_hash-Kept b c i in rw (s.dev, s.blocknr)

  table :
      (k : ℕ) → (link_hash b c).hash_table k ≡ (if k == bucket_of c b then b else c.hash_table k)
  table = link_hash-hash_table b c device head_ne

  nexts :
      (i : ℕ)
      → next_in (link_hash b c) i ≡ (if i == b then c.hash_table (bucket_of c b) else next_in c i)
  nexts = link_hash-b_next b c device head_ne

  prevs :
      (i : ℕ)
      → prev_in (link_hash b c) i
        ≡ (if i == c.hash_table (bucket_of c b) then b else if i == b then 0 else prev_in c i)
  prevs = link_hash-b_prev b c device head_ne

  in_own :
      (xs : List ℕ)
      → Seg (next_in c) (prev_in c) (c.hash_table (bucket_of c b)) 0 xs 0
      → has b xs ≡ false
      → Distinct xs
      → Seg (next_in (link_hash b c)) (prev_in (link_hash b c)) (next_in (link_hash b c) b) b xs 0
  in_own [] s out d = ground (arith, nexts b)
  in_own (x ∷ xs) (link, back, s) out (single, d) =
      let ahead : next_in (link_hash b c) x ≡ next_in c x = ground (arith, nexts x) in
      (
        ground (arith, nexts b, link),
        ground (arith, prevs x, link),
        rw ahead (
            frame-Seg (next_in c) (prev_in c) _ _ 0 _ x xs s λ j i.
              let not_b = has_ne j b xs i (ground arith) in
              let not_x = has_ne j x xs i single in
              (ground (arith, nexts j, not_b), ground (arith, prevs j, not_b, not_x, link))),
      )

  elsewhere :
      (j k : ℕ)
      → has j (chain k) ≡ true
      → (k == bucket_of c b) ≡ false
      → prev_in (link_hash b c) j ≡ prev_in c j
  elsewhere j k i other =
      let not_b = has_ne j b (chain k) i (gone k) in
      let not_null = has_ne j 0 (chain k) i (v.real k) in
      let not_head : j ≢ c.hash_table (bucket_of c b) = λ e.
        let m : has j old ≡ true =
          rw e
            (first-inside (next_in c) (prev_in c) _ 0 0 old (v.linked _) (λ z. not_null (e ∙ z))) in
        let same : k ≡ bucket_of c b = sym (v.filed k j i).0 ∙ (v.filed _ j m).0 in
        absurd (ground (arith, same, other)) in
      ground (arith, prevs j, not_b, not_head)

  linked :
      (k : ℕ)
      → Seg
          (next_in (link_hash b c))
          (prev_in (link_hash b c))
          ((link_hash b c).hash_table k)
          0
          (with_first b c chain k)
          0
  linked k = elim (Bool-cases (k == bucket_of c b)) [
    | inl own ↦
        let e : k ≡ bucket_of c b = (==_iff _ _).0 own in
        let start : (link_hash b c).hash_table k ≡ b = ground (arith, table k) in
        rw own
          (start, ground (arith, prevs b, head_ne), in_own old (v.linked _) (gone _) (v.distinct _))
    | inr other ↦
        let start : (link_hash b c).hash_table k ≡ c.hash_table k = ground (arith, table k) in
        rw (other, start)
          (frame-Seg (next_in c) (prev_in c) _ _ 0 _ 0 (chain k) (v.linked k) λ j i.
            (ground (arith, nexts j, has_ne j b (chain k) i (gone k)), elsewhere j k i other))
  ]

  pub member_first :
      (k i : ℕ)
      → has i (with_first b c chain k) ≡ true
      → ((i ≡ b) × (k ≡ bucket_of c b)) ⊎ (has i (chain k) ≡ true)
  member_first k i m = elim (Bool-cases (k == bucket_of c b)) [
    | inl own ↦
        let e : k ≡ bucket_of c b = (==_iff _ _).0 own in
        let m' : has i (b ∷ old) ≡ true = rw own at m in
        elim (Bool-cases (i == b)) [
          | inl first ↦ inl ((==_iff i b).0 first, e)
          | inr later ↦ inr (rw e (ground arith))
        ]
    | inr other ↦ inr (rw other at m)
  ]

  outside :
      (i : ℕ)
      → has i (with_first b c chain (bucket_of c i)) ≡ false
      → (i ≢ b) × (has i (chain (bucket_of c i)) ≡ false)
  outside i out = elim (Bool-cases (bucket_of c i == bucket_of c b)) [
    | inl own ↦
        let e : bucket_of c i ≡ bucket_of c b = (==_iff _ _).0 own in
        let out' : has i (b ∷ old) ≡ false = rw own at out in
        (λ f. ground arith, rw e (ground arith))
    | inr other ↦
        let out' : has i (chain (bucket_of c i)) ≡ false = rw other at out in
        (λ f. let same : bucket_of c i ≡ bucket_of c b = ap (bucket_of c) f in ground arith, out')
  ]

  pub link_hash-Chains : Chains (link_hash b c) (with_first b c chain) 0
  link_hash-Chains = record {
    linked = linked;
    distinct = λ k. elim (Bool-cases (k == bucket_of c b)) [
      | inl own ↦ rw own (gone _, v.distinct _)
      | inr other ↦ rw other (v.distinct k)
    ];
    real = λ k. elim (Bool-cases (k == bucket_of c b)) [
      | inl own ↦ rw own (ground (arith, v.real (bucket_of c b)))
      | inr other ↦ rw other (v.real k)
    ];
    filed = λ k i m. elim (member_first k i m) [
      | inl (e, bucket) ↦
          (own_bucket i ∙ rw e (sym bucket), rw ((link_hash-Kept b c i).dev, e) device)
      | inr old_one ↦
          let (bucket, has_device) = v.filed k i old_one in
          (own_bucket i ∙ bucket, rw ((link_hash-Kept b c i).dev) has_device)
    ];
    loose = λ i _ real out.
        let (away, out') = outside i (rw own_bucket at out) in
        let (no_next, no_prev) = v.loose i away real out' in
        let not_head : i ≢ c.hash_table (bucket_of c b) = λ e.
          let m : has i old ≡ true =
            rw e
              (first-inside (next_in c) (prev_in c) _ 0 0 old (v.linked _) (λ z. real (e ∙ z))) in
          let m' : has i (chain (bucket_of c i)) ≡ true = rw ((v.filed _ i m).0) m in
          absurd (ground arith) in
        (ground (arith, nexts i, away, no_next), ground (arith, prevs i, away, not_head, no_prev));
  }

-- The first buffer of a list that holds the block, or NULL.
abbrev pub find_in : ℕ → ℕ → Cache → List ℕ → ℕ
find_in dev block c [] = 0
find_in dev block c (x ∷ xs) = if holds dev block (c.heads x) then x else find_in dev block c xs

find_from-find_in :
    (k dev block h a : ℕ) (c : Cache) (xs : List ℕ)
    → Seg (next_in c) (prev_in c) h a xs 0
    → has 0 xs ≡ false
    → length xs < k
    → find_from k dev block c h ≡ find_in dev block c xs
unfolding find_from
find_from-find_in zero dev block h a c xs s real short = absurd (omega (arith, short))
find_from-find_in (suc k) dev block h a c [] s real short = ground arith
find_from-find_in (suc k) dev block h a c (x ∷ xs) (link, back, s) real short =
    let rest = find_from-find_in k dev block (next_in c x) x c xs s (ground arith) (omega arith) in
    rw (link, rest) (ground arith)

-- The search finds what stands in the chain of the block.
pub find_buffer-find_in :
    (dev block : ℕ) (c : Cache) (chain : ℕ → List ℕ) (out : ℕ)
    → Chains c chain out
    → length (chain (hashfn dev block)) ≤ c.nr_buffers
    → find_buffer dev block c ≡ find_in dev block c (chain (hashfn dev block))
unfolding find_buffer
find_buffer-find_in dev block c chain out v short =
    find_from-find_in (c.nr_buffers + 1) dev block _ 0 c _ (v.linked _) (v.real _) (omega arith)

pub find_in-none :
    (dev block : ℕ) (c : Cache) (xs : List ℕ)
    → has 0 xs ≡ false
    → find_in dev block c xs ≡ 0
    → (i : ℕ) → has i xs ≡ true
    → holds dev block (c.heads i) ≡ false
find_in-none dev block c [] real e i m = absurd (ground arith)
find_in-none dev block c (x ∷ xs) real e i m = elim (Bool-cases (holds dev block (c.heads x))) [
  | inl found ↦ let z : x ≡ 0 = rw found at e in absurd (ground arith)
  | inr other ↦
      let e' : find_in dev block c xs ≡ 0 = rw other at e in
      elim (Bool-cases (i == x)) [
        | inl same ↦ rw ((==_iff i x).0 same) other
        | inr later ↦ find_in-none dev block c xs (ground arith) e' i (ground arith)
      ]
]

pub find_in_absent :
    (dev block : ℕ) (c : Cache) (xs : List ℕ)
    → ((i : ℕ) → has i xs ≡ true → holds dev block (c.heads i) ≡ false)
    → find_in dev block c xs ≡ 0
find_in_absent dev block c [] out = refl
find_in_absent dev block c (x ∷ xs) out =
    rw (out x (ground arith)) (find_in_absent dev block c xs (λ i m. out i (ground arith)))
