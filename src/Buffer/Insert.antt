-- ===== src/Buffer/Insert.antt =====
-- fs/buffer.c: `insert_into_queues` on a buffer that is in neither queue.
use rhee_creatives_linux_v.Base.{
  ℕ, ◌<◌, ◌≡◌, ◌≢◌, refl, sym, ◌∙◌, ap, true, false, List, [], ◌∷◌, ◌++◌, ◌==◌, arith, Bool-cases,
  inl, inr, ==_refl, has, has-append, Distinct, snoc-Distinct, length, length-append,
}
use rhee_creatives_linux_v.Buffer.{
  Cache, hashfn, bucket_of, holds, link_hash, link_free, insert_into_queues, find_buffer,
}
use rhee_creatives_linux_v.Buffer.Steps.{
  link_hash-b_prev, Kept, link_free-Kept, link_free-hash, link_hash-Kept, link_hash-free,
}
use rhee_creatives_linux_v.Buffer.Ring.{Ring, link_free-Ring}
use rhee_creatives_linux_v.Buffer.Chains.{Chains, dev_of}
use rhee_creatives_linux_v.Buffer.Filing.{
  with_first, link_hash-Chains, member_first, find_in, find_buffer-find_in,
}
use rhee_creatives_linux_v.Buffer.Same.{Ring-same, Chains-same}
use rhee_creatives_linux_v.Buffer.Lru.{IsCache, IsOut, chain_length}

module _ (b : ℕ) (c : Cache) (free : List ℕ) (chain : ℕ → List ℕ) (v : IsOut c b free chain)
    (some_left : 0 < length free) (b_ne : b ≢ 0) (device : dev_of c b ≢ 0) where
  abbrev behind : Cache
  behind = link_free b c

  behind-Ring : Ring behind (free ++ b ∷ [])
  behind-Ring = at_end free v.ring v.distinct v.away some_left
    where
      at_end :
          (xs : List ℕ)
          → Ring c xs
          → Distinct xs
          → has b xs ≡ false
          → 0 < length xs
          → Ring behind (xs ++ b ∷ [])
      at_end [] ring d out some_left = absurd (omega arith)
      at_end (f ∷ xs) ring d out some_left = link_free-Ring c b f xs ring d out

  behind-Chains : Chains behind chain b
  behind-Chains =
      Chains-same c behind chain b v.absent (λ k. (link_free-hash b c k).2)
        (λ i _.
          let (p, q, _, _, _) = link_free-hash b c i in
          let s = link_free-Kept b c i in (p, q, s.dev, s.blocknr))
        v.chains

  behind-device : dev_of behind b ≢ 0
  behind-device = rw ((link_free-Kept b c b).dev) device

  abbrev pub filed : ℕ → List ℕ
  filed = with_first b behind chain

  of_other : (k i : ℕ) → i ≢ b → has i (filed k) ≡ true → has i (chain k) ≡ true
  of_other k i ne m =
      elim (member_first b behind chain behind-Chains b_ne behind-device v.absent k i m) [
        | inl (e, _) ↦ absurd (ne e)
        | inr old ↦ old
      ]

  filed-inside : (k i : ℕ) → has i (filed k) ≡ true → has i (free ++ b ∷ []) ≡ true
  filed-inside k i m = rw (has-append i free (b ∷ [])) (elim (Bool-cases (i == b)) [
    | inl own ↦ ground arith
    | inr other ↦ let ne : i ≢ b = ground arith in ground (arith, v.inside k i (of_other k i ne m))
  ])

  -- It becomes the last of the free list and the first of its chain.
  pub insert_into_queues-IsCache : IsCache (insert_into_queues b c) (free ++ b ∷ []) filed
  unfolding insert_into_queues
  insert_into_queues-IsCache = record {
    ring =
        Ring-same behind (link_hash b behind) (free ++ b ∷ []) (link_hash-free b behind 0).2
          (λ i. let (p, q, _, _) = link_hash-free b behind i in (p, q)) behind-Ring;
    distinct = snoc-Distinct b free v.away v.distinct;
    real = rw (has-append 0 free (b ∷ []), v.real) (ground (arith, b_ne));
    size =
        (link_hash-free b behind 0).3
        ∙ (link_free-hash b c 0).4
        ∙ v.size
        ∙ omega (arith, length-append free (b ∷ []));
    chains = link_hash-Chains b behind chain behind-Chains b_ne behind-device v.absent;
    inside = filed-inside;
  }

  pub insert_into_queues-Kept : (i : ℕ) → Kept (c.heads i) ((insert_into_queues b c).heads i)
  unfolding insert_into_queues
  insert_into_queues-Kept i =
      let s = link_hash-Kept b behind i in
      let t = link_free-Kept b c i in
      record {
        dev = s.dev ∙ t.dev;
        blocknr = s.blocknr ∙ t.blocknr;
        number = s.number ∙ t.number;
        dirt = s.dirt ∙ t.dirt;
        lock = s.lock ∙ t.lock;
      }

  -- The search finds it.
  pub find_buffer-inserted :
      (dev block : ℕ)
      → dev_of c b ≡ dev
      → (c.heads b).b_blocknr ≡ block
      → find_buffer dev block (insert_into_queues b c) ≡ b
  find_buffer-inserted dev block device blocknr =
      let w = insert_into_queues-IsCache in
      let s = insert_into_queues-Kept b in
      let t = link_free-Kept b c b in
      let own : hashfn dev block ≡ bucket_of behind b = rw (t.dev, t.blocknr, device, blocknr) in
      let front : filed (hashfn dev block) ≡ b ∷ chain (bucket_of behind b) =
        rw (own, ==_refl (bucket_of behind b)) in
      let named : holds dev block ((insert_into_queues b c).heads b) ≡ true =
        rw (s.dev ∙ device, s.blocknr ∙ blocknr) (ground arith) in
      find_buffer-find_in dev block (insert_into_queues b c) filed 0 w.chains
        (chain_length w (hashfn dev block))
      ∙ ap (find_in dev block (insert_into_queues b c)) front
      ∙ rw named refl

-- Put into a chain that was empty, a buffer is also written to the place of `b_prev` behind NULL.
pub insert_into_queues-null :
    (b : ℕ) (c : Cache)
    → (c.heads b).b_dev ≢ 0
    → c.hash_table (bucket_of c b) ≡ 0
    → b ≢ 0
    → ((insert_into_queues b c).heads 0).b_prev ≡ b
unfolding insert_into_queues
insert_into_queues-null b c device empty ne =
    let t = link_free-Kept b c b in
    let own : bucket_of (link_free b c) b ≡ bucket_of c b = rw (t.dev, t.blocknr) in
    let device' : dev_of (link_free b c) b ≢ 0 = rw (t.dev) device in
    let (_, _, table, _, _) = link_free-hash b c (bucket_of c b) in
    let empty' : (link_free b c).hash_table (bucket_of (link_free b c) b) ≡ 0 =
      ap (link_free b c).hash_table own ∙ table ∙ empty in
    let away : (link_free b c).hash_table (bucket_of (link_free b c) b) ≢ b =
      λ e. ne (sym e ∙ empty') in
    link_hash-b_prev b (link_free b c) device' away 0 ∙ rw empty' refl
