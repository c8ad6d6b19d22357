-- ===== src/Buffer/Init.antt =====
-- fs/buffer.c: the cache that `buffer_init` makes.
use rhee_creatives_linux_v.Base.{
  ℕ, zero, suc, ◌+◌, ◌-◌, ◌*◌, ◌/◌, ◌≤◌, ◌<◌, ◌≡◌, refl, sym, ◌∙◌, ap, subst, false, List, [], ◌∷◌,
  ◌==◌, leb, if◌then◌else◌, arith, Bool-cases, inl, inr, ==_iff, has, last_or, Distinct, Seg,
  length,
}
use rhee_creatives_linux_v.Buffer.{
  BufferHead, Cache, at_head, fresh_head, block_size, head_size, skip_hole, init_loop, buffer_init,
}
use rhee_creatives_linux_v.Buffer.Ring.{Ring, next_free, prev_free}
use rhee_creatives_linux_v.Buffer.Chains.{next_in, prev_in}
use rhee_creatives_linux_v.Buffer.Lru.{IsCache}

-- A buffer in no chain, between its neighbours in memory.
pub record IsFresh (i : ℕ) (h : BufferHead) : Type 0 where
  pub unlocked : h.b_lock ≡ false
  pub unused : h.b_count ≡ 0
  pub no_next : h.b_next ≡ 0
  pub no_prev : h.b_prev ≡ 0
  pub before : h.b_prev_free ≡ i - 1
  pub behind : h.b_next_free ≡ i + 1

abbrev Made : ℕ → Cache → Type 0
Made n c = (i : ℕ) → 0 < i → i ≤ n → IsFresh i (c.heads i)

one_more :
    (n content : ℕ) (c : Cache)
    → Made n c
    → Made (n + 1) (at_head (n + 1) (fresh_head (n + 1) content) c)
one_more n content c made i pos_i small = elim (Bool-cases (i == n + 1)) [
  | inl new ↦
      let e : i ≡ n + 1 = (==_iff i (n + 1)).0 new in
      record {
        unlocked = ground arith;
        unused = ground arith;
        no_next = ground arith;
        no_prev = ground arith;
        before = ground arith;
        behind = ground arith;
      }
  | inr old ↦
      let m = made i pos_i (ground arith) in
      record {
        unlocked = ground (arith, m.unlocked);
        unused = ground (arith, m.unused);
        no_next = ground (arith, m.no_next);
        no_prev = ground (arith, m.no_prev);
        before = ground (arith, m.before);
        behind = ground (arith, m.behind);
      }
]

init_loop-Made :
    (k end b n : ℕ) (c : Cache)
    → Made n c
    → Made (init_loop k end b n c).nr_buffers (init_loop k end b n c)
      × ((init_loop k end b n c).hash_table ≡ c.hash_table)
      × (n ≤ (init_loop k end b n c).nr_buffers)
unfolding init_loop
init_loop-Made zero end b n c made = (made, refl, omega arith)
init_loop-Made (suc k) end b n c made =
    elim (Bool-cases (leb (end + head_size * (n + 1)) (b - block_size))) [
      | inl room ↦
          let content : ℕ = b - block_size in
          let (m, table, more) =
            init_loop-Made k end (skip_hole content) (n + 1) _ (one_more n content c made) in
          rw room (m, table, omega (arith, more))
      | inr full ↦ rw full (made, refl, omega arith)
    ]

-- The buffers from `i` on.
abbrev pub up_from : ℕ → ℕ → List ℕ
up_from zero i = []
up_from (suc k) i = i ∷ up_from k (i + 1)

has-up_from : (k i j : ℕ) → j < i → has j (up_from k i) ≡ false
has-up_from zero i j low = refl
has-up_from (suc k) i j low = ground (arith, has-up_from k (i + 1) j (omega arith))

up_from-Distinct : (k i : ℕ) → Distinct (up_from k i)
up_from-Distinct zero i = tt
up_from-Distinct (suc k) i = (has-up_from k (i + 1) i (omega arith), up_from-Distinct k (i + 1))

length-up_from : (k i : ℕ) → length (up_from k i) ≡ k
length-up_from zero i = refl
length-up_from (suc k) i = omega (arith, length-up_from k (i + 1))

last_or-up_from : (k i : ℕ) → last_or i (up_from k (i + 1)) ≡ i + k
last_or-up_from zero i = omega arith
last_or-up_from (suc k) i = omega (arith, last_or-up_from k (i + 1))

-- Neighbours in memory, the last before the first.
up_from-Seg :
    (next prev : ℕ → ℕ) (n k i : ℕ)
    → i + k ≡ n
    → next n ≡ 1
    → ((j : ℕ) → 0 < j → j < n → next j ≡ j + 1)
    → ((j : ℕ) → 1 < j → j ≤ n → prev j ≡ j - 1)
    → 0 < i
    → Seg next prev (next i) i (up_from k (i + 1)) 1
up_from-Seg next prev n zero i sum end ahead behind pos_i = let e : i ≡ n = omega arith in rw e end
up_from-Seg next prev n (suc k) i sum end ahead behind pos_i = (
  ahead i pos_i (omega arith),
  omega (arith, behind (i + 1) (omega arith) (omega arith)),
  up_from-Seg next prev n k (i + 1) (omega arith) end ahead behind (omega arith),
)

abbrev pub NoChains : Cache → Type 0
NoChains c = ((i : ℕ) → (next_in c i ≡ 0) × (prev_in c i ≡ 0)) × ((k : ℕ) → c.hash_table k ≡ 0)

init_loop-links :
    (k end b n : ℕ) (c : Cache)
    → ((i : ℕ) → (next_in c i ≡ 0) × (prev_in c i ≡ 0))
    → (i : ℕ) → (next_in (init_loop k end b n c) i ≡ 0) × (prev_in (init_loop k end b n c) i ≡ 0)
unfolding init_loop
init_loop-links zero end b n c zeros i = zeros i
init_loop-links (suc k) end b n c zeros i =
    elim (Bool-cases (leb (end + head_size * (n + 1)) (b - block_size))) [
      | inl room ↦ rw room (
          init_loop-links k end _ (n + 1) _
            (λ j. (ground (arith, zeros j), ground (arith, zeros j))) i)
      | inr full ↦ rw full (zeros i)
    ]

module _ (end buffer_end : ℕ) (c : Cache) (zeros : NoChains c)
    (more : 2 ≤ (buffer_init end buffer_end c).nr_buffers) where
  abbrev looped : Cache
  looped = init_loop (buffer_end / block_size) end buffer_end 0 c

  abbrev n : ℕ
  n = looped.nr_buffers

  abbrev ready : Cache
  ready = buffer_init end buffer_end c

  ready-size : (ready.nr_buffers ≡ n) × (ready.free_list ≡ 1) × ((k : ℕ) → ready.hash_table k ≡ 0)
  unfolding buffer_init
  ready-size =
      let (_, table, _) =
        init_loop-Made (buffer_end / block_size) end buffer_end 0 c
          (λ i p q. absurd (omega (arith, p, q))) in
      (refl, refl, λ k. ground (arith, ap (λ t. t k) table, zeros.1 k))

  two : 2 ≤ n
  two = rw (← ready-size.0) more

  ready-head :
      (i : ℕ)
      → 0 < i
      → i ≤ n
      → (next_free ready i ≡ (if i == n then 1 else i + 1))
        × (prev_free ready i ≡ (if i == 1 then n else i - 1))
        × ((ready.heads i).b_lock ≡ false)
        × ((ready.heads i).b_count ≡ 0)
  unfolding buffer_init
  ready-head i pos_i small =
      let (made, _, _) =
        init_loop-Made (buffer_end / block_size) end buffer_end 0 c
          (λ i p q. absurd (omega (arith, p, q))) in
      let m = made i pos_i small in
      (
        ground (arith, m.behind),
        ground (arith, m.before),
        ground (arith, m.unlocked),
        ground (arith, m.unused),
      )

  ready-links : (i : ℕ) → (next_in ready i ≡ 0) × (prev_in ready i ≡ 0)
  unfolding buffer_init
  ready-links i =
      let (p, q) = init_loop-links (buffer_end / block_size) end buffer_end 0 c zeros.0 i in
      (ground (arith, p), ground (arith, q))

  ready-Ring : (m : ℕ) → n ≡ suc m → Ring ready (up_from n 1)
  ready-Ring m e =
      let (_, start, _) = ready-size in
      let next_end : next_free ready n ≡ 1 = ground (arith, ready-head n, two) in
      let back : prev_free ready 1 ≡ n = ground (arith, ready-head 1, two) in
      subst (λ k. Ring ready (up_from k 1)) (sym e)
        (
          start,
          up_from-Seg (next_free ready) (prev_free ready) n m 1 (omega (arith, e)) next_end
              (λ j p q. ground (arith, ready-head j)) (λ j p q. ground (arith, ready-head j))
              (omega arith),
          back ∙ e ∙ omega (arith, last_or-up_from m 1),
        )

  of_number : (k : ℕ) → k ≡ n → (m : ℕ) × (k ≡ suc m)
  of_number zero e = absurd (omega (arith, e, two))
  of_number (suc m) e = (m, refl)

  -- From memory that is all zero, `buffer_init` makes a cache with all its buffers in the free
  -- list, in the order of memory, none of them in a chain, locked or used.
  pub buffer_init-IsCache :
      IsCache ready (up_from ready.nr_buffers 1) (λ k. [])
      × ((i : ℕ)
          → 0 < i
          → i ≤ ready.nr_buffers
          → ((ready.heads i).b_lock ≡ false) × ((ready.heads i).b_count ≡ 0))
  buffer_init-IsCache =
      let (size, _, tables) = ready-size in
      let (m, e) = of_number n refl in
      (
        record {
          ring = subst (λ k. Ring ready (up_from k 1)) (sym size) (ready-Ring m e);
          distinct = up_from-Distinct ready.nr_buffers 1;
          real = has-up_from ready.nr_buffers 1 0 (omega arith);
          size = sym (length-up_from ready.nr_buffers 1);
          chains = record {
            linked = tables;
            distinct = λ k. tt;
            real = λ k. refl;
            filed = λ k i absent. absurd (ground arith);
            loose = λ i _ _ _. ready-links i;
          };
          inside = λ k i absent. absurd (ground arith);
        },
        λ i p q. let (_, _, lock, users) = ready-head i p (rw (← size) q) in (lock, users),
      )
