-- ===== src/Buffer/Ring.antt =====
-- fs/buffer.c: the free list is a ring, and the operations on it are those of a list.
use rhee_creatives_linux_v.Base.{
  ℕ, ◌≡◌, ◌≢◌, sym, ◌∙◌, subst, true, false, List, [], ◌∷◌, ◌++◌, ◌==◌, arith, Bool-cases, inl, inr,
  ==_iff, has, erase, last_or, first_or, Distinct, Seg, has_ne, next-inside, prev-inside,
  next-erase, erase-Seg, last_or-erase, snoc-Seg, retarget-Seg, has-last_or, no_loop, last_or-snoc,
}
use rhee_creatives_linux_v.Buffer.{Cache, unlink_free, link_free}
use rhee_creatives_linux_v.Buffer.Steps.{
  unlink_free-b_next_free, unlink_free-b_prev_free, unlink_free-free_list, link_free-b_next_free,
  link_free-b_prev_free, link_free-hash,
}

abbrev pub next_free : Cache → ℕ → ℕ
next_free c i = (c.heads i).b_next_free

abbrev pub prev_free : Cache → ℕ → ℕ
prev_free c i = (c.heads i).b_prev_free

-- From `free_list` on, the buffers of the ring in order.
abbrev pub Ring : Cache → List ℕ → Type 0
Ring c [] = Unit
Ring c (f ∷ xs) =
    (c.free_list ≡ f)
    × Seg (next_free c) (prev_free c) (next_free c f) f xs f
    × (prev_free c f ≡ last_or f xs)

-- In a ring of two or more, a buffer is not its own neighbour.
module _ (c : Cache) (f r : ℕ) (xs : List ℕ) (ring : Ring c (f ∷ r ∷ xs))
    (d : Distinct (f ∷ r ∷ xs)) where
  pub apart : (b : ℕ) → has b (f ∷ r ∷ xs) ≡ true → (next_free c b ≢ b) × (prev_free c b ≢ b)
  apart b i = elim (Bool-cases (b == f)) [
    | inl first ↦
        let e : b ≡ f = (==_iff b f).0 first in
        let back : prev_free c f ≡ last_or r xs = ring.2 in
        rw e (
          λ g. ground (arith, g, ring.1.0, d.0),
          λ g. has_ne (last_or r xs) f (r ∷ xs) (has-last_or r xs) d.0 (sym back ∙ g),
        )
    | inr other ↦
        no_loop (next_free c) (prev_free c) (next_free c) (prev_free c) f b (next_free c f) f
          (r ∷ xs) ring.1 d.1 d.0 d.0 (ground arith)
  ]

  -- The first buffer leaves the ring.
  unlink-first : Ring (unlink_free f c) (r ∷ xs)
  unlink-first =
      let (away, close) = apart f (ground arith) in
      let heads = unlink_free-b_next_free f c away close in
      let tails = unlink_free-b_prev_free f c away close in
      let (start, (link, back, s), loop) = ring in
      let keep : (j : ℕ) → j ≢ last_or r xs → next_free (unlink_free f c) j ≡ next_free c j =
        λ j ne. ground (arith, heads j, loop) in
      let join : next_free (unlink_free f c) (last_or r xs) ≡ r =
        ground (arith, heads (last_or r xs), loop, link) in
      let same : (j : ℕ) → j ≢ r → prev_free (unlink_free f c) j ≡ prev_free c j =
        λ j ne. ground (arith, tails j, link) in
      let (single, d') = d.1 in
      let end : next_free (unlink_free f c) r ≡ first_or r xs = ahead xs s single keep join in
      (
        ground (arith, unlink_free-free_list f c away close, start, link),
        rw end (
            retarget-Seg (next_free c) (prev_free c) _ _ f r (next_free c r) r xs s d'
              (λ j i ne. keep j ne) (λ j i. same j (has_ne j r xs i single)) (λ _. join)),
        ground (arith, tails r, link, loop),
      )
    where
      ahead :
          (xs : List ℕ)
          → Seg (next_free c) (prev_free c) (next_free c r) r xs f
          → has r xs ≡ false
          → ((j : ℕ) → j ≢ last_or r xs → next_free (unlink_free f c) j ≡ next_free c j)
          → next_free (unlink_free f c) (last_or r xs) ≡ r
          → next_free (unlink_free f c) r ≡ first_or r xs
      ahead [] s single keep join = join
      ahead (x ∷ xs) (link, _, _) single keep join =
          keep r (λ e. has_ne (last_or x xs) r (x ∷ xs) (has-last_or x xs) single (sym e)) ∙ link

  -- Another one does.
  unlink-other : (b : ℕ) → has b (r ∷ xs) ≡ true → Ring (unlink_free b c) (f ∷ erase b (r ∷ xs))
  unlink-other b i =
      let (away, close) = apart b (ground arith) in
      let heads = unlink_free-b_next_free b c away close in
      let tails = unlink_free-b_prev_free b c away close in
      let (start, s, loop) = ring in
      let (single, d') = d in
      let next-spares : (j : ℕ)
          → j ≢ prev_free c b
          → next_free (unlink_free b c) j ≡ next_free c j =
        λ j ne. ground (arith, heads j) in
      let prev-spares : (j : ℕ)
          → j ≢ next_free c b
          → prev_free (unlink_free b c) j ≡ prev_free c j =
        λ j ne. ground (arith, tails j) in
      let left : next_free (unlink_free b c) (prev_free c b) ≡ next_free c b =
        ground (arith, heads (prev_free c b)) in
      let right : prev_free (unlink_free b c) (next_free c b) ≡ prev_free c b =
        ground (arith, tails (next_free c b)) in
      let ahead =
        next-erase (next_free c) (prev_free c) _ _ f b next-spares prev-spares f (r ∷ xs) s i single
          (λ _. left) in
      let rest =
        erase-Seg (next_free c) (prev_free c) _ _ f b next-spares prev-spares (next_free c f) f
          (r ∷ xs) s d' single single i (λ _. left) (λ _. right) in
      let end =
        last_or-erase (next_free c) (prev_free c) (next_free c) (prev_free c) f b (next_free c f) f
          (r ∷ xs) s single d' i in
      let differs : f ≢ b = λ e. has_ne b f (r ∷ xs) i single (sym e) in
      (
        ground (arith, unlink_free-free_list b c away close, start),
        rw ahead rest,
        rw end (ground (arith, tails f, loop)),
      )

-- A buffer that is in the ring leaves it.
pub unlink_free-Ring :
    (c : Cache) (b f : ℕ) (xs : List ℕ)
    → Ring c (f ∷ xs)
    → Distinct (f ∷ xs)
    → has b (f ∷ xs) ≡ true
    → Ring (unlink_free b c) (erase b (f ∷ xs))
unlink_free-Ring c b f [] ring d i = let e : (f == b) ≡ true = ground arith in rw e tt
unlink_free-Ring c b f (r ∷ xs) ring d i = elim (Bool-cases (f == b)) [
  | inl first ↦
      let e : f ≡ b = (==_iff f b).0 first in rw (first, ← e) (unlink-first c f r xs ring d)
  | inr other ↦ rw other (unlink-other c f r xs ring d b (ground arith))
]

-- One that is not goes to its end.
pub link_free-Ring :
    (c : Cache) (b f : ℕ) (xs : List ℕ)
    → Ring c (f ∷ xs)
    → Distinct (f ∷ xs)
    → has b (f ∷ xs) ≡ false
    → Ring (link_free b c) (f ∷ xs ++ b ∷ [])
link_free-Ring c b f xs (start, s, loop) (single, d) out =
    let head_ne : c.free_list ≢ b = λ e. ground (arith, start, e, out) in
    let tail_is : (c.heads c.free_list).b_prev_free ≡ last_or f xs = rw start loop in
    let tail_ne : (c.heads c.free_list).b_prev_free ≢ b =
      λ e. has_ne (last_or f xs) b (f ∷ xs) (has-last_or f xs) out (sym tail_is ∙ e) in
    let heads = link_free-b_next_free b c head_ne tail_ne in
    let tails = link_free-b_prev_free b c head_ne tail_ne in
    let keep : (j : ℕ) → j ≢ b → j ≢ last_or f xs → next_free (link_free b c) j ≡ next_free c j =
      λ j ne away. ground (arith, heads j, tail_is) in
    let join : next_free (link_free b c) (last_or f xs) ≡ b =
      ground (arith, heads (last_or f xs), tail_is) in
    let end = ahead xs s single out (keep f (λ e. ground (arith, e, out))) join in
    (
      (link_free-hash b c 0).3 ∙ start,
      rw end (
          snoc-Seg (next_free c) (prev_free c) _ _ f b (next_free c f) f xs s d
            (λ j i ne. keep j (λ e. has_ne j b xs i (ground arith) e) ne)
            (λ j i.
              let u = has_ne j f xs i single in
              let v = has_ne j b xs i (ground arith) in ground (arith, tails j, start, u, v))
            (λ _. join) (ground (arith, heads b, start, tail_ne))
            (ground (arith, tails b, start, tail_is, head_ne))),
      ground (arith, tails f, start, last_or-snoc f b xs),
    )
  where
    ahead :
        (xs : List ℕ)
        → Seg (next_free c) (prev_free c) (next_free c f) f xs f
        → has f xs ≡ false
        → has b (f ∷ xs) ≡ false
        → (f ≢ last_or f xs → next_free (link_free b c) f ≡ next_free c f)
        → next_free (link_free b c) (last_or f xs) ≡ b
        → next_free (link_free b c) f ≡ first_or b xs
    ahead [] s single out keep join = join
    ahead (x ∷ xs) (link, _, _) single out keep join =
        keep (λ e. has_ne (last_or x xs) f (x ∷ xs) (has-last_or x xs) single (sym e)) ∙ link

-- The neighbours of a buffer of the ring are in the ring.
pub neighbours-inside :
    (c : Cache) (b f : ℕ) (xs : List ℕ)
    → Ring c (f ∷ xs)
    → has b (f ∷ xs) ≡ true
    → (has (next_free c b) (f ∷ xs) ≡ true) × (has (prev_free c b) (f ∷ xs) ≡ true)
neighbours-inside c b f xs (start, s, loop) i = elim (Bool-cases (b == f)) [
  | inl first ↦
      let e : f ≡ b = sym ((==_iff b f).0 first) in
      (
        subst (λ j. has (next_free c j) (f ∷ xs) ≡ true) e (ahead xs s),
        subst (λ j. has (prev_free c j) (f ∷ xs) ≡ true) e
            (subst (λ l. has l (f ∷ xs) ≡ true) (sym loop) (has-last_or f xs)),
      )
  | inr other ↦
      let m : has b xs ≡ true = ground arith in
      (
        elim (next-inside _ _ (next_free c) (prev_free c) f b _ f xs s m) [
          | inl e ↦ ground (arith, e)
          | inr inside ↦ ground (arith, inside)
        ],
        elim (prev-inside _ _ (next_free c) (prev_free c) f b _ f xs s m) [
          | inl (_, e) ↦ ground (arith, e)
          | inr inside ↦ ground (arith, inside)
        ],
      )
]
  where
    ahead :
        (xs : List ℕ)
        → Seg (next_free c) (prev_free c) (next_free c f) f xs f
        → has (next_free c f) (f ∷ xs) ≡ true
    ahead [] s = ground (arith, s)
    ahead (x ∷ xs) (link, _, _) = ground (arith, link)
