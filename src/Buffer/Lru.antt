-- ===== src/Buffer/Lru.antt =====
-- fs/buffer.c: the cache as its free list, the oldest buffer first, and its chains.
use rhee_creatives_linux_v.Base.{
  ℕ, zero, suc, ◌≤◌, ◌<◌, ◌≡◌, refl, sym, ◌∙◌, true, false, some, List, [], ◌∷◌, ◌==◌,
  if◌then◌else◌, arith, Bool-cases, ◌⊎◌, inl, inr, subst, has, Distinct, Seg, length, length-le,
}
use rhee_creatives_linux_v.Buffer.{Cache, Driver, wait_on_buffer, scan}
use rhee_creatives_linux_v.Buffer.Ring.{Ring, next_free, prev_free}
use rhee_creatives_linux_v.Buffer.Chains.{Chains}

-- The buffers are those of the free list, the oldest first, and of the chains.
pub record IsCache (c : Cache) (free : List ℕ) (chain : ℕ → List ℕ) : Type 0 where
  pub ring : Ring c free
  pub distinct : Distinct free
  pub real : has 0 free ≡ false
  pub size : c.nr_buffers ≡ length free
  pub chains : Chains c chain 0
  pub inside : (k i : ℕ) → has i (chain k) ≡ true → has i free ≡ true

-- The same with the buffer `b` in neither.
pub record IsOut (c : Cache) (b : ℕ) (free : List ℕ) (chain : ℕ → List ℕ) : Type 0 where
  pub ring : Ring c free
  pub distinct : Distinct free
  pub real : has 0 free ≡ false
  pub away : has b free ≡ false
  pub size : c.nr_buffers ≡ suc (length free)
  pub chains : Chains c chain b
  pub absent : (k : ℕ) → has b (chain k) ≡ false
  pub inside : (k i : ℕ) → has i (chain k) ≡ true → has i free ≡ true

pub chain_length :
    {c : Cache} {free : List ℕ} {chain : ℕ → List ℕ}
    → IsCache c free chain
    → (k : ℕ) → length (chain k) ≤ c.nr_buffers
chain_length {free = free} {chain = chain} v k =
    rw (v.size) (length-le (chain k) free (v.chains.distinct k) (v.inside k))

abbrev pub NoLocks : Cache → Type 0
NoLocks c = (i : ℕ) → (c.heads i).b_lock ≡ false

-- The first buffer without a user, or `d`.
abbrev pub victim : ℕ → Cache → List ℕ → ℕ
victim d c [] = d
victim d c (x ∷ xs) = if (c.heads x).b_count == 0 then x else victim d c xs

later : (i x : ℕ) (xs : List ℕ) → has i xs ≡ true → has i (x ∷ xs) ≡ true
later i x xs m = ground arith

pub victim-inside :
    (d : ℕ) (c : Cache) (xs : List ℕ) → (victim d c xs ≡ d) ⊎ (has (victim d c xs) xs ≡ true)
victim-inside d c [] = inl refl
victim-inside d c (x ∷ xs) = elim (Bool-cases ((c.heads x).b_count == 0)) [
  | inl unused ↦
      let e : victim d c (x ∷ xs) ≡ x = rw unused in
      inr (subst (λ i. has i (x ∷ xs) ≡ true) (sym e) (ground arith))
  | inr used ↦
      let e : victim d c (x ∷ xs) ≡ victim d c xs = rw used in
      elim (victim-inside d c xs) [
        | inl none_free ↦ inl (e ∙ none_free)
        | inr m ↦ inr (subst (λ i. has i (x ∷ xs) ≡ true) (sym e) (later _ x xs m))
      ]
]

module _ (driver : Driver) where
  pub scan-victim :
      (k f x : ℕ) (c : Cache) (xs : List ℕ)
      → NoLocks c
      → c.free_list ≡ f
      → Seg (next_free c) (prev_free c) (next_free c x) x xs f
      → has f xs ≡ false
      → length xs < k
      → scan driver k x c ≡ some (victim f c (x ∷ xs), c)
  unfolding scan wait_on_buffer
  scan-victim zero f x c xs free start s out short = absurd (omega (arith, short))
  scan-victim (suc k) f x c [] free start s out short =
      let end : (f == c.free_list) ≡ true = ground (arith, start) in
      elim (Bool-cases ((c.heads x).b_count == 0)) [
        | inl unused ↦ rw (unused, free x, unused)
        | inr used ↦ rw (used, s, end)
      ]
  scan-victim (suc k) f x c (y ∷ ys) free start (link, _, s) out short =
      let away : (y == c.free_list) ≡ false = ground (arith, start) in
      let rest = scan-victim k f y c ys free start s (ground arith) (omega (arith, short)) in
      elim (Bool-cases ((c.heads x).b_count == 0)) [
        | inl unused ↦ rw (unused, free x, unused)
        | inr used ↦ rw (used, link, away, rest)
      ]
