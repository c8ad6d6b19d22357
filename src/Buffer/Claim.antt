-- ===== src/Buffer/Claim.antt =====
-- fs/buffer.c: what `getblk` does with the buffer it takes, before it inserts it again.
use rhee_creatives_linux_v.Base.{
  ℕ, ◌+◌, ◌%◌, ◌^◌, ◌≤◌, ◌≡◌, ◌≢◌, refl, sym, ◌∙◌, true, false, some, List, [], ◌∷◌, ◌==◌,
  if◌then◌else◌, arith, Bool-cases, inl, inr, has, erase, has_ne, has-erase, has_ne-erase,
  erase-gone, erase-Distinct, Distinct, length, length-le, suc-erase,
}
use rhee_creatives_linux_v.Buffer.{
  Cache, Driver, hashfn, at_head, add_user, remove_from_queues, unlink_hash, unlink_free,
  find_buffer, claim, sync_dev, renamed,
}
use rhee_creatives_linux_v.Buffer.Steps.{
  unlink_hash-Kept, unlink_hash-free, unlink_free-Kept, unlink_free-hash,
}
use rhee_creatives_linux_v.Buffer.Ring.{
  Ring, next_free, prev_free, unlink_free-Ring, neighbours-inside,
}
use rhee_creatives_linux_v.Buffer.Chains.{Chains, without, unlink_hash-Chains, gone, still}
use rhee_creatives_linux_v.Buffer.Filing.{
  find_in, find_buffer-find_in, find_in-none, find_in_absent,
}
use rhee_creatives_linux_v.Buffer.Same.{
  SameCache, SameCache-refl, Honest, sync_dev-SameCache, Ring-same, Chains-same,
}
use rhee_creatives_linux_v.Buffer.Lru.{IsCache, IsOut, chain_length, NoLocks}

-- `b` is taken out of both queues.
module _ (b : ℕ) (c : Cache) (free : List ℕ) (chain : ℕ → List ℕ) (v : IsCache c free chain)
    (member : has b free ≡ true) where
  b_ne : b ≢ 0
  b_ne = has_ne b 0 free member v.real

  abbrev pub counted : Cache
  counted = add_user b c

  counted-Chains : Chains counted chain 0
  counted-Chains =
      Chains-same c counted chain 0 v.chains.real (λ k. refl)
        (λ i _. (ground arith, ground arith, ground arith, ground arith)) v.chains

  counted-Ring : Ring counted free
  counted-Ring = Ring-same c counted free refl (λ i. (ground arith, ground arith)) v.ring

  abbrev pub unfiled : Cache
  unfiled = unlink_hash b counted

  abbrev pub chain' : ℕ → List ℕ
  chain' = without b counted chain

  unfiled-Ring : Ring unfiled free
  unfiled-Ring =
      Ring-same counted unfiled free (unlink_hash-free b counted 0).2
        (λ i. let (p, q, _, _) = unlink_hash-free b counted i in (p, q)) counted-Ring

  abbrev pub unlinked : Cache
  unlinked = unlink_free b unfiled

  unlinked-Chains : Chains unlinked chain' b
  unlinked-Chains =
      Chains-same unfiled unlinked chain' b (gone b counted chain counted-Chains b_ne)
        (λ k. (unlink_free-hash b unfiled k).2)
        (λ i _.
          let (p, q, _, _) = unlink_free-hash b unfiled i in
          let s = unlink_free-Kept b unfiled i in (p, q, s.dev, s.blocknr))
        (unlink_hash-Chains b counted chain counted-Chains b_ne)

  unlinked-Ring : Ring unlinked (erase b free)
  unlinked-Ring = of_list free unfiled-Ring v.distinct member
    where
      of_list :
          (xs : List ℕ)
          → Ring unfiled xs
          → Distinct xs
          → has b xs ≡ true
          → Ring unlinked (erase b xs)
      of_list [] ring d m = absurd (ground arith)
      of_list (f ∷ xs) ring d m = unlink_free-Ring unfiled b f xs ring d m

  remove-unlinked : remove_from_queues b counted ≡ some unlinked
  unfolding remove_from_queues
  remove-unlinked =
      let (p, q) = in_list free unfiled-Ring member in
      let has_next : (next_free unfiled b == 0) ≡ false =
        ground (arith, has_ne (next_free unfiled b) 0 free p v.real) in
      let has_prev : (prev_free unfiled b == 0) ≡ false =
        ground (arith, has_ne (prev_free unfiled b) 0 free q v.real) in
      rw (has_next, has_prev)
    where
      in_list :
          (xs : List ℕ)
          → Ring unfiled xs
          → has b xs ≡ true
          → (has (next_free unfiled b) xs ≡ true) × (has (prev_free unfiled b) xs ≡ true)
      in_list [] ring m = absurd (ground arith)
      in_list (f ∷ xs) ring m = neighbours-inside unfiled b f xs ring m

  -- The head of a buffer before and after it.
  unlinked-names :
      (i : ℕ)
      → ((unlinked.heads i).b_dev ≡ (c.heads i).b_dev)
        × ((unlinked.heads i).b_blocknr ≡ (c.heads i).b_blocknr)
        × ((unlinked.heads i).b_lock ≡ (c.heads i).b_lock)
        × ((unlinked.heads i).b_count ≡ (counted.heads i).b_count)
  unlinked-names i =
      let s = unlink_hash-Kept b counted i in
      let t = unlink_free-Kept b unfiled i in
      (
        t.dev ∙ s.dev ∙ ground arith,
        t.blocknr ∙ s.blocknr ∙ ground arith,
        t.lock ∙ s.lock ∙ ground arith,
        t.number ∙ s.number,
      )

  unlinked-size : unlinked.nr_buffers ≡ c.nr_buffers
  unlinked-size = (unlink_free-hash b unfiled 0).3 ∙ (unlink_hash-free b counted 0).3

  module _ (driver : Driver) (honest : Honest driver) (free_locks : NoLocks c) (dev block : ℕ) where
    abbrev pub synced : Cache
    synced =
        if (unlinked.heads b).b_dirt
        then sync_dev driver (unlinked.heads b).b_dev unlinked
        else unlinked

    synced-SameCache : SameCache unlinked synced
    synced-SameCache = elim (Bool-cases (unlinked.heads b).b_dirt) [
      | inl dirty ↦ rw dirty (
          sync_dev-SameCache driver honest (unlinked.heads b).b_dev unlinked
            λ i. let (_, _, lock, _) = unlinked-names i in lock ∙ free_locks i)
      | inr clean ↦ rw clean (SameCache-refl unlinked)
    ]

    abbrev pub claimed : Cache
    claimed = at_head b (renamed dev block) synced

    pub claim-claimed : claim driver dev block b c ≡ some claimed
    unfolding claim
    claim-claimed = rw (claim, remove-unlinked)

    claimed-Ring : Ring claimed (erase b free)
    claimed-Ring =
        let same = synced-SameCache in
        Ring-same unlinked claimed (erase b free) same.list
          (λ i. let s = same.head i in (ground (arith, s.next_free), ground (arith, s.prev_free)))
          unlinked-Ring

    absent : (k : ℕ) → has b (chain' k) ≡ false
    absent = gone b counted chain counted-Chains b_ne

    claimed-Chains : Chains claimed chain' b
    claimed-Chains =
        let same = synced-SameCache in
        Chains-same unlinked claimed chain' b absent same.table
          (λ i ne.
            let s = same.head i in
            (
              ground (arith, s.next),
              ground (arith, s.prev),
              ground (arith, s.dev),
              ground (arith, s.blocknr),
            ))
          unlinked-Chains

    claimed-names :
        (i : ℕ)
        → i ≢ b
        → ((claimed.heads i).b_dev ≡ (c.heads i).b_dev)
          × ((claimed.heads i).b_blocknr ≡ (c.heads i).b_blocknr)
    claimed-names i ne =
        let s = synced-SameCache.head i in
        let (device, blocknr, _, _) = unlinked-names i in
        (ground (arith, s.dev ∙ device), ground (arith, s.blocknr ∙ blocknr))

    claimed-size : claimed.nr_buffers ≡ c.nr_buffers
    claimed-size = synced-SameCache.size ∙ unlinked-size

    chain'-inside : (k i : ℕ) → has i (chain' k) ≡ true → has i free ≡ true
    chain'-inside k i m = v.inside k i (still b counted chain counted-Chains b_ne k i m)

    out_inside : (k i : ℕ) → has i (chain' k) ≡ true → has i (erase b free) ≡ true
    out_inside k i m =
        has_ne-erase i b free (has_ne i b (chain' k) m (absent k)) ∙ chain'-inside k i m

    -- `b` has the new name and is in neither queue.
    pub claimed-IsOut : IsOut claimed b (erase b free) chain'
    claimed-IsOut = record {
      ring = claimed-Ring;
      distinct = erase-Distinct b free v.distinct;
      real = has-erase 0 b free v.real;
      away = erase-gone b free v.distinct;
      size = claimed-size ∙ v.size ∙ sym (suc-erase b free member);
      chains = claimed-Chains;
      absent = absent;
      inside = out_inside;
    }

    -- The block is still in no chain.
    pub claimed-find : find_buffer dev block c ≡ 0 → find_buffer dev block claimed ≡ 0
    claimed-find none_yet =
        let k = hashfn dev block in
        let short = chain_length v k in
        let short' : length (chain' k) ≤ claimed.nr_buffers =
          rw (claimed-size, v.size)
            (length-le (chain' k) free (claimed-Chains.distinct k) (chain'-inside k)) in
        let before : find_in dev block c (chain k) ≡ 0 =
          sym (find_buffer-find_in dev block c chain 0 v.chains short) ∙ none_yet in
        find_buffer-find_in dev block claimed chain' b claimed-Chains short'
        ∙ find_in_absent dev block claimed (chain' k) λ i m.
          let ne = has_ne i b (chain' k) m (absent k) in
          let (device, blocknr) = claimed-names i ne in
          let old =
            find_in-none dev block c (chain k) (v.chains.real k) before i
              (still b counted chain counted-Chains b_ne k i m) in
          ground (arith, device, blocknr, old)

    pub claimed-head :
        ((claimed.heads b).b_dev ≡ dev % 2 ^ 16)
        × ((claimed.heads b).b_blocknr ≡ block % 2 ^ 16)
        × ((claimed.heads b).b_count ≡ ((c.heads b).b_count + 1) % 2 ^ 8)
        × ((claimed.heads b).b_dirt ≡ false)
    claimed-head =
        let (_, _, _, number) = unlinked-names b in
        let s = synced-SameCache.head b in
        (ground arith, ground arith, ground (arith, s.number, number), ground arith)
