-- ===== src/Buffer/Same.antt =====
-- fs/buffer.c: changes that leave the ring and the chains as they are.
use rhee_creatives_linux_v.Base.{
  ℕ, zero, suc, ◌+◌, ◌≤◌, ◌≡◌, ◌≢◌, refl, ◌∙◌, false, List, [], ◌∷◌, ◌==◌, arith, Bool-cases, inl,
  inr, has, has_ne, frame-Seg,
}
use rhee_creatives_linux_v.Buffer.{
  BufferHead, Cache, Driver, bucket_of, wait_on_buffer, write_back, sync_those, sync_dev,
}
use rhee_creatives_linux_v.Buffer.Ring.{Ring, next_free, prev_free}
use rhee_creatives_linux_v.Buffer.Chains.{Chains, next_in, prev_in, dev_of}

-- A head with the links, the name and the users of another.
pub record SameHead (h g : BufferHead) : Type 0 where
  pub dev : g.b_dev ≡ h.b_dev
  pub blocknr : g.b_blocknr ≡ h.b_blocknr
  pub number : g.b_count ≡ h.b_count
  pub next : g.b_next ≡ h.b_next
  pub prev : g.b_prev ≡ h.b_prev
  pub next_free : g.b_next_free ≡ h.b_next_free
  pub prev_free : g.b_prev_free ≡ h.b_prev_free

pub record SameCache (c c' : Cache) : Type 0 where
  pub head : (i : ℕ) → SameHead (c.heads i) (c'.heads i)
  pub table : (k : ℕ) → c'.hash_table k ≡ c.hash_table k
  pub list : c'.free_list ≡ c.free_list
  pub size : c'.nr_buffers ≡ c.nr_buffers

pub SameCache-refl : (c : Cache) → SameCache c c
SameCache-refl c = record {
  head = λ i. record {
    dev = refl;
    blocknr = refl;
    number = refl;
    next = refl;
    prev = refl;
    next_free = refl;
    prev_free = refl;
  };
  table = λ k. refl;
  list = refl;
  size = refl;
}

pub SameCache-trans : (a b c : Cache) → SameCache a b → SameCache b c → SameCache a c
SameCache-trans a b c p q = record {
  head = λ i.
      let s = p.head i in
      let t = q.head i in
      record {
        dev = t.dev ∙ s.dev;
        blocknr = t.blocknr ∙ s.blocknr;
        number = t.number ∙ s.number;
        next = t.next ∙ s.next;
        prev = t.prev ∙ s.prev;
        next_free = t.next_free ∙ s.next_free;
        prev_free = t.prev_free ∙ s.prev_free;
      };
  table = λ k. q.table k ∙ p.table k;
  list = q.list ∙ p.list;
  size = q.size ∙ p.size;
}

-- What a driver may do to the cache when a write is requested: it changes the state of the data of
-- the buffers, and locks no buffer but that one.
pub record Honest (driver : Driver) : Type 0 where
  pub keeps : (bh : ℕ) (c : Cache) → SameCache c (driver.ll_rw_block 1 bh c)
  pub locks :
      (bh i : ℕ) (c : Cache)
      → i ≢ bh
      → ((driver.ll_rw_block 1 bh c).heads i).b_lock ≡ (c.heads i).b_lock

module _ (driver : Driver) (honest : Honest driver) where
  write_back-SameCache :
      (bh : ℕ) (c : Cache) → (c.heads bh).b_lock ≡ false → SameCache c (write_back driver bh c)
  unfolding write_back wait_on_buffer
  write_back-SameCache bh c free = elim (Bool-cases (c.heads bh).b_dirt) [
    | inl dirty ↦ rw (free, dirty) (honest.keeps bh c)
    | inr clean ↦ rw (free, clean) (SameCache-refl c)
  ]

  write_back-locks :
      (bh i : ℕ) (c : Cache)
      → (c.heads bh).b_lock ≡ false
      → i ≢ bh
      → ((write_back driver bh c).heads i).b_lock ≡ (c.heads i).b_lock
  unfolding write_back wait_on_buffer
  write_back-locks bh i c free ne = ground (arith, honest.locks bh i c ne)

  pub sync_those-SameCache :
      (dev k bh : ℕ) (c : Cache)
      → ((i : ℕ) → bh ≤ i → (c.heads i).b_lock ≡ false)
      → SameCache c (sync_those driver dev k bh c)
  unfolding sync_those
  sync_those-SameCache dev zero bh c free = SameCache-refl c
  sync_those-SameCache dev (suc k) bh c free = elim (Bool-cases ((c.heads bh).b_dev == dev)) [
    | inl of_dev ↦ rw of_dev (
        SameCache-trans c _ _ (write_back-SameCache bh c (free bh (omega arith))) (
          sync_those-SameCache dev k (bh + 1) (write_back driver bh c) λ i later.
            write_back-locks bh i c (free bh (omega arith)) (omega (arith, later))
            ∙ free i (omega (arith, later))))
    | inr other ↦
        rw other (sync_those-SameCache dev k (bh + 1) c λ i later. free i (omega (arith, later)))
  ]

  pub sync_dev-SameCache :
      (dev : ℕ) (c : Cache)
      → ((i : ℕ) → (c.heads i).b_lock ≡ false)
      → SameCache c (sync_dev driver dev c)
  unfolding sync_dev
  sync_dev-SameCache dev c free = sync_those-SameCache dev c.nr_buffers 1 c (λ i _. free i)

-- The ring depends on its links and its start.
pub Ring-same :
    (c c' : Cache) (xs : List ℕ)
    → c'.free_list ≡ c.free_list
    → ((i : ℕ) → (next_free c' i ≡ next_free c i) × (prev_free c' i ≡ prev_free c i))
    → Ring c xs
    → Ring c' xs
Ring-same c c' [] list same ring = tt
Ring-same c c' (f ∷ xs) list same (start, s, loop) = (
  list ∙ start,
  rw ((same f).0) (frame-Seg (next_free c) (prev_free c) _ _ f _ f xs s (λ j _. same j)),
  (same f).1 ∙ loop,
)

-- The chains depend on the links and the names of the buffers but the one that is out.
pub Chains-same :
    (c c' : Cache) (chain : ℕ → List ℕ) (out : ℕ)
    → ((k : ℕ) → has out (chain k) ≡ false)
    → ((k : ℕ) → c'.hash_table k ≡ c.hash_table k)
    → ((i : ℕ)
        → i ≢ out
        → (next_in c' i ≡ next_in c i)
          × (prev_in c' i ≡ prev_in c i)
          × (dev_of c' i ≡ dev_of c i)
          × ((c'.heads i).b_blocknr ≡ (c.heads i).b_blocknr))
    → Chains c chain out
    → Chains c' chain out
Chains-same c c' chain out gone table same v = record {
  linked = λ k. rw (table k) (
      frame-Seg (next_in c) (prev_in c) _ _ 0 _ 0 (chain k) (v.linked k)
        λ j i. let (p, q, _, _) = same j (has_ne j out (chain k) i (gone k)) in (p, q));
  distinct = v.distinct;
  real = v.real;
  filed = λ k i m.
      let (_, _, dev, blocknr) = same i (has_ne i out (chain k) m (gone k)) in
      let (bucket, device) = v.filed k i m in (rw (dev, blocknr) bucket, rw dev device);
  loose = λ i ne real absent.
      let (p, q, dev, blocknr) = same i ne in
      let absent' : has i (chain (bucket_of c i)) ≡ false = rw (dev, blocknr) at absent in
      let (no_next, no_prev) = v.loose i ne real absent' in (p ∙ no_next, q ∙ no_prev);
}
