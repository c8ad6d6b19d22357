-- ===== src/Buffer/Getblk.antt =====
-- fs/buffer.c: `getblk` and `get_hash_table` on a cache that is in order.
use rhee_creatives_linux_v.Base.{
  ℕ, zero, suc, ◌+◌, ◌%◌, ◌^◌, ◌≤◌, ◌<◌, ◌≡◌, ◌≢◌, refl, sym, ◌∙◌, ap, subst, true, false, some,
  List, [], ◌∷◌, ◌++◌, ◌==◌, arith, Bool-cases, inl, inr, has, erase, has_ne, length, suc-erase,
}
use rhee_creatives_linux_v.Buffer.{
  Cache, Driver, got, missing, hashfn, holds, add_user, insert_into_queues, find_buffer,
  wait_on_buffer, get_hash_table, scan, getblk,
}
use rhee_creatives_linux_v.Buffer.Filing.{find_in, find_buffer-find_in}
use rhee_creatives_linux_v.Buffer.Same.{Honest, Ring-same, Chains-same}
use rhee_creatives_linux_v.Buffer.Lru.{
  IsCache, chain_length, NoLocks, victim, victim-inside, scan-victim,
}
use rhee_creatives_linux_v.Buffer.Claim.{
  claimed, claim-claimed, claimed-find, claimed-IsOut, claimed-head,
}
use rhee_creatives_linux_v.Buffer.Insert.{
  filed, insert_into_queues-IsCache, insert_into_queues-Kept, find_buffer-inserted,
}

-- What `getblk` hands out: a buffer with the name asked for, which the search finds from then on.
pub record Handed (dev block bh : ℕ) (c : Cache) : Type 0 where
  pub named : holds dev block (c.heads bh) ≡ true
  pub found : find_buffer dev block c ≡ bh

-- The cache afterwards, with `b` the last of the free list, clean and with one user more.
pub record Moved (dev block b n : ℕ) (free : List ℕ) (c' : Cache) : Type 0 where
  pub handed : Handed dev block b c'
  pub chain : ℕ → List ℕ
  pub lru : IsCache c' (erase b free ++ b ∷ []) chain
  pub users : (c'.heads b).b_count ≡ (n + 1) % 2 ^ 8
  pub clean : (c'.heads b).b_dirt ≡ false

module _ (driver : Driver) (honest : Honest driver) (k dev block f : ℕ) (xs : List ℕ) (c : Cache)
    (chain : ℕ → List ℕ) (v : IsCache c (f ∷ xs) chain) (free_locks : NoLocks c)
    (absent : find_buffer dev block c ≡ 0) (more : 2 ≤ length (f ∷ xs)) (device : dev ≢ 0)
    (dev_lt : dev < 2 ^ 16) (block_lt : block < 2 ^ 16) where
  abbrev chosen : ℕ
  chosen = victim f c (f ∷ xs)

  chosen-inside : has chosen (f ∷ xs) ≡ true
  chosen-inside = elim (victim-inside f c (f ∷ xs)) [
    | inl e ↦ subst (λ i. has i (f ∷ xs) ≡ true) (sym e) (ground arith)
    | inr m ↦ m
  ]

  scan-chosen : scan driver c.nr_buffers c.free_list c ≡ some (chosen, c)
  scan-chosen =
      let (start, s, _) = v.ring in
      let all : length xs < c.nr_buffers = rw (v.size) (omega arith) in
      ap (λ l. scan driver c.nr_buffers l c) start
      ∙ scan-victim driver c.nr_buffers f f c xs free_locks start s v.distinct.0 all

  module _ (n : ℕ) (is_n : chosen ≡ suc n) where
    member : has (suc n) (f ∷ xs) ≡ true
    member = subst (λ i. has i (f ∷ xs) ≡ true) is_n chosen-inside

    abbrev taken : Cache
    taken = claimed (suc n) c (f ∷ xs) chain v member driver honest free_locks dev block

    not_cached : get_hash_table driver (suc k) dev block c ≡ missing c
    unfolding get_hash_table
    not_cached = rw absent

    runs : getblk driver (suc k) dev block c ≡ got (suc n) (insert_into_queues (suc n) taken)
    unfolding getblk
    runs =
        let seen : scan driver c.nr_buffers c.free_list c ≡ some (suc n, c) =
          scan-chosen ∙ ap (λ b. some (b, c)) is_n in
        let took =
          claim-claimed (suc n) c (f ∷ xs) chain v member driver honest free_locks dev block in
        let still =
          claimed-find (suc n) c (f ∷ xs) chain v member driver honest free_locks dev block
            absent in
        rw (getblk, not_cached, seen, took, still)

    abbrev after : Cache
    after = insert_into_queues (suc n) taken

    moved : Moved dev block (suc n) (c.heads (suc n)).b_count (f ∷ xs) after
    moved =
        let out =
          claimed-IsOut (suc n) c (f ∷ xs) chain v member driver honest free_locks dev block in
        let (named, blocknr, users, clean) =
          claimed-head (suc n) c (f ∷ xs) chain v member driver honest free_locks dev block in
        let named' : (taken.heads (suc n)).b_dev ≡ dev = named ∙ omega (arith, dev_lt) in
        let blocknr' : (taken.heads (suc n)).b_blocknr ≡ block =
          blocknr ∙ omega (arith, block_lt) in
        let left : 0 < length (erase (suc n) (f ∷ xs)) =
          omega (arith, suc-erase (suc n) (f ∷ xs) member, more) in
        let device' : (taken.heads (suc n)).b_dev ≢ 0 = rw named' device in
        let s = insert_into_queues-Kept (suc n) taken _ _ out left (omega arith) device' (suc n) in
        record {
          handed = record {
            named = rw (s.dev ∙ named', s.blocknr ∙ blocknr') (ground arith);
            found =
                find_buffer-inserted (suc n) taken _ _ out left (omega arith) device' dev block
                  named' blocknr';
          };
          chain = filed (suc n) taken _ _ out left (omega arith) device';
          lru = insert_into_queues-IsCache (suc n) taken _ _ out left (omega arith) device';
          users = s.number ∙ users;
          clean = s.dirt ∙ clean;
        }

  -- `getblk` of a block that is not cached takes the oldest buffer without a user, or the oldest of
  -- all, and moves it to the end of the free list and in front of the chain of its new name; the
  -- others keep their order. The buffer is clean, has one user more, and is found from then on.
  pub getblk-Moved :
      (c' : Cache) × (getblk driver (suc k) dev block c ≡ got chosen c')
      × Moved dev block chosen (c.heads chosen).b_count (f ∷ xs) c'
  getblk-Moved = of_number chosen refl
    where
      of_number :
          (b : ℕ)
          → chosen ≡ b
          → (c' : Cache) × (getblk driver (suc k) dev block c ≡ got b c')
            × Moved dev block b (c.heads b).b_count (f ∷ xs) c'
      of_number zero e = absurd (has_ne chosen 0 (f ∷ xs) chosen-inside v.real e)
      of_number (suc n) e = (after n e, runs n e, moved n e)

find_in-holds :
    (dev block : ℕ) (c : Cache) (xs : List ℕ)
    → find_in dev block c xs ≢ 0
    → holds dev block (c.heads (find_in dev block c xs)) ≡ true
find_in-holds dev block c [] ne = absurd (ne refl)
find_in-holds dev block c (x ∷ xs) ne = elim (Bool-cases (holds dev block (c.heads x))) [
  | inl found ↦ rw (found, found)
  | inr other ↦
      let e : find_in dev block c (x ∷ xs) ≡ find_in dev block c xs = rw other in
      let ne' : find_in dev block c xs ≢ 0 = λ z. ne (e ∙ z) in
      subst (λ i. holds dev block (c.heads i) ≡ true) (sym e) (find_in-holds dev block c xs ne')
]

pub add_user-IsCache :
    (b : ℕ) (c : Cache) (free : List ℕ) (chain : ℕ → List ℕ)
    → IsCache c free chain
    → IsCache (add_user b c) free chain
add_user-IsCache b c free chain v = record {
  ring = Ring-same c (add_user b c) free refl (λ i. (ground arith, ground arith)) v.ring;
  distinct = v.distinct;
  real = v.real;
  size = v.size;
  chains =
      Chains-same c (add_user b c) chain 0 v.chains.real (λ k. refl)
        (λ i _. (ground arith, ground arith, ground arith, ground arith)) v.chains;
  inside = v.inside;
}

-- `getblk` of a block that is cached hands out its buffer, with one user more and nothing else
-- changed: the cache has the same free list and chains.
pub getblk-cached :
    (driver : Driver) (k dev block n : ℕ) (c : Cache) (free : List ℕ) (chain : ℕ → List ℕ)
    → IsCache c free chain
    → (c.heads (suc n)).b_lock ≡ false
    → find_buffer dev block c ≡ suc n
    → (getblk driver (suc k) dev block c ≡ got (suc n) (add_user (suc n) c))
      × (holds dev block ((add_user (suc n) c).heads (suc n)) ≡ true)
      × IsCache (add_user (suc n) c) free chain
unfolding getblk get_hash_table wait_on_buffer
getblk-cached driver k dev block n c free chain v idle found =
    let same =
      find_buffer-find_in dev block c chain 0 v.chains (chain_length v (hashfn dev block)) in
    let in_chain : find_in dev block c (chain (hashfn dev block)) ≡ suc n = sym same ∙ found in
    let named : holds dev block (c.heads (suc n)) ≡ true =
      subst (λ i. holds dev block (c.heads i) ≡ true) in_chain
        (find_in-holds dev block c _ (λ z. ground (arith, in_chain, z))) in
    let named' : holds dev block ((add_user (suc n) c).heads (suc n)) ≡ true =
      ground (arith, named) in
    let unlocked : ((add_user (suc n) c).heads (suc n)).b_lock ≡ false = ground (arith, idle) in
    let hit : get_hash_table driver (suc k) dev block c ≡ got (suc n) (add_user (suc n) c) =
      let not_null : (suc n == 0) ≡ false = ground arith in
      rw (found, not_null, unlocked, named') in
    (rw (getblk, hit), named', add_user-IsCache (suc n) c free chain v)
