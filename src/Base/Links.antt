-- ===== src/Base/Links.antt =====
-- Doubly linked lists through two tables of links, and what unlinking and linking do to them.
use Prim.Native.Nat.{ℕ, suc, ◌≤◌}
use mathlib.Core.Path.{◌≡◌, refl, sym, ◌∙◌}
use mathlib.Core.Logic.{◌≢◌, ◌⊎◌, inl, inr}
use mathlib.Core.Bool.{Bool, true, false, ◌||◌}
use mathlib.Core.List.{List, [], ◌∷◌, ◌++◌}
use native.Mathlib.Omega.{arith}
use rhee_creatives_linux_v.Base.Lists.{length}
use rhee_creatives_linux_v.Base.Tests.{◌==◌, if◌then◌else◌, Bool-cases, ==_iff, ==_refl}

abbrev pub has : ℕ → List ℕ → Bool
has i [] = false
has i (x ∷ xs) = (i == x) || has i xs

abbrev pub erase : ℕ → List ℕ → List ℕ
erase i [] = []
erase i (x ∷ xs) = if x == i then xs else x ∷ erase i xs

-- The last of `xs`, or `a`.
abbrev pub last_or : ℕ → List ℕ → ℕ
last_or a [] = a
last_or a (x ∷ xs) = last_or x xs

-- The first of `xs`, or `b`.
abbrev pub first_or : ℕ → List ℕ → ℕ
first_or b [] = b
first_or b (x ∷ xs) = x

abbrev pub Distinct : List ℕ → Type 0
Distinct [] = Unit
Distinct (x ∷ xs) = (has x xs ≡ false) × Distinct xs

-- The link `h` out of `a` leads through `xs` to `z`, and each of `xs` is linked to the one before.
abbrev pub Seg : (next prev : ℕ → ℕ) → (h a : ℕ) → List ℕ → (z : ℕ) → Type 0
Seg next prev h a [] z = h ≡ z
Seg next prev h a (x ∷ xs) z = (h ≡ x) × (prev x ≡ a) × Seg next prev (next x) x xs z

pub has_ne : (i j : ℕ) (xs : List ℕ) → has i xs ≡ true → has j xs ≡ false → i ≢ j
has_ne i j xs p q e = let clash : has j xs ≡ true = rw (← e) p in ground arith

pub has-erase : (i b : ℕ) (xs : List ℕ) → has i xs ≡ false → has i (erase b xs) ≡ false
has-erase i b [] h = refl
has-erase i b (x ∷ xs) h = ground (arith, has-erase i b xs)

pub erase-gone : (b : ℕ) (xs : List ℕ) → Distinct xs → has b (erase b xs) ≡ false
erase-gone b [] d = refl
erase-gone b (x ∷ xs) (out, d) = elim (Bool-cases (x == b)) [
  | inl same ↦ let e : x ≡ b = (==_iff x b).0 same in rw (same, ← e) out
  | inr differs ↦ rw differs (ground (arith, erase-gone b xs d))
]

pub erase-Distinct : (b : ℕ) (xs : List ℕ) → Distinct xs → Distinct (erase b xs)
erase-Distinct b [] d = d
erase-Distinct b (x ∷ xs) (out, d) = elim (Bool-cases (x == b)) [
  | inl same ↦ rw same d
  | inr differs ↦ rw differs (has-erase x b xs out, erase-Distinct b xs d)
]

pub has-append : (i : ℕ) (xs ys : List ℕ) → has i (xs ++ ys) ≡ (has i xs || has i ys)
has-append i [] ys = refl
has-append i (x ∷ xs) ys = ground (arith, has-append i xs ys)

pub snoc-Distinct : (b : ℕ) (xs : List ℕ) → has b xs ≡ false → Distinct xs → Distinct (xs ++ b ∷ [])
snoc-Distinct b [] h d = (refl, tt)
snoc-Distinct b (x ∷ xs) h (out, d) =
    (rw (has-append x xs (b ∷ []), out) (ground arith), snoc-Distinct b xs (ground arith) d)

pub has-last_or : (x : ℕ) (xs : List ℕ) → has (last_or x xs) (x ∷ xs) ≡ true
has-last_or x [] = ground arith
has-last_or x (y ∷ ys) = ground (arith, has-last_or y ys)

module _ (next prev next' prev' : ℕ → ℕ) (z : ℕ) where
  -- A list survives a change that spares its own links.
  pub frame-Seg :
      (h a : ℕ) (xs : List ℕ)
      → Seg next prev h a xs z
      → ((j : ℕ) → has j xs ≡ true → (next' j ≡ next j) × (prev' j ≡ prev j))
      → Seg next' prev' h a xs z
  frame-Seg h a [] s same = s
  frame-Seg h a (x ∷ xs) (link, back, s) same =
      let (ahead, behind) = same x (ground arith) in
      (link, behind ∙ back, rw ahead (frame-Seg (next x) x xs s (λ j i. same j (ground arith))))

  pub next-inside :
      (b h a : ℕ) (xs : List ℕ)
      → Seg next prev h a xs z
      → has b xs ≡ true
      → (next b ≡ z) ⊎ (has (next b) xs ≡ true)
  next-inside b h a [] s i = absurd (ground arith)
  next-inside b h a (x ∷ []) (link, back, s) i = let e : b ≡ x = ground arith in inl (rw e s)
  next-inside b h a (x ∷ y ∷ ys) (link, back, s) i = elim (Bool-cases (b == x)) [
    | inl same ↦ let e : b ≡ x = (==_iff b x).0 same in rw e (inr (rw s.0 (ground arith)))
    | inr differs ↦ elim (next-inside b (next x) x (y ∷ ys) s (ground arith)) [
      | inl end ↦ inl end
      | inr inside ↦ inr (ground arith)
    ]
  ]

  pub prev-inside :
      (b h a : ℕ) (xs : List ℕ)
      → Seg next prev h a xs z
      → has b xs ≡ true
      → ((h ≡ b) × (prev b ≡ a)) ⊎ (has (prev b) xs ≡ true)
  prev-inside b h a [] s i = absurd (ground arith)
  prev-inside b h a (x ∷ xs) (link, back, s) i = elim (Bool-cases (b == x)) [
    | inl same ↦ let e : b ≡ x = (==_iff b x).0 same in rw e (inl (link, back))
    | inr differs ↦ elim (prev-inside b (next x) x xs s (ground arith)) [
      | inl (first, behind) ↦ inr (rw behind (ground arith))
      | inr inside ↦ inr (ground arith)
    ]
  ]

  -- The link that leads to `b` from the first place is the one back from `b`.
  first_prev :
      (b h a : ℕ) (xs : List ℕ) → Seg next prev h a xs z → h ≡ b → has b xs ≡ true → prev b ≡ a
  first_prev b h a [] s e i = absurd (ground arith)
  first_prev b h a (x ∷ xs) (link, back, s) e i = rw (← e, link) back

  -- The list without `b`, once the neighbours of `b` are linked to one another.
  module _ (b : ℕ) (next-spares : (j : ℕ) → j ≢ prev b → next' j ≡ next j)
      (prev-spares : (j : ℕ) → j ≢ next b → prev' j ≡ prev j) where
    erase-first :
        (a : ℕ) (ys : List ℕ)
        → Seg next prev (next b) b ys z
        → prev b ≡ a
        → Distinct ys
        → has a ys ≡ false
        → (has (next b) ys ≡ true → prev' (next b) ≡ prev b)
        → Seg next' prev' (next b) a ys z
    erase-first a [] s back d out joined = s
    erase-first a (y ∷ ys) (link, _, s) back (single, d) out joined =
        let behind : prev' y ≡ a = rw (← link) (joined (rw link (ground arith)) ∙ back) in
        let ahead : next' y ≡ next y = next-spares y (λ e. ground arith) in
        (
          link,
          behind,
          rw ahead (
              frame-Seg (next y) y ys s (λ j i. (
                next-spares j (λ e. has_ne j a ys i (ground arith) (e ∙ back)),
                prev-spares j (λ e. has_ne j y ys i single (e ∙ link)),
              ))),
        )

    -- The new link out of the place before `xs`.
    pub next-erase :
        (a : ℕ) (xs : List ℕ)
        → Seg next prev (next a) a xs z
        → has b xs ≡ true
        → has a xs ≡ false
        → (has (prev b) (a ∷ xs) ≡ true → next' (prev b) ≡ next b)
        → next' a ≡ (if next a == b then next b else next a)
    next-erase a xs s i single left = elim (prev-inside b (next a) a xs s i) [
      | inl (f, behind) ↦
          let t : (next a == b) ≡ true = (==_iff _ _).1 f in
          rw (t, ← behind) (left (rw behind (ground arith)))
      | inr m ↦
          let t : (next a == b) ≡ false = elim (Bool-cases (next a == b)) [
            | inl p ↦
                absurd (
                  has_ne (prev b) a xs m single (first_prev b (next a) a xs s ((==_iff _ _).0 p) i))
            | inr q ↦ q
          ] in
          rw t (next-spares a (λ f. has_ne (prev b) a xs m single (sym f)))
    ]

    pub erase-Seg :
        (h a : ℕ) (xs : List ℕ)
        → Seg next prev h a xs z
        → Distinct xs
        → has a xs ≡ false
        → has z xs ≡ false
        → has b xs ≡ true
        → (has (prev b) xs ≡ true → next' (prev b) ≡ next b)
        → (has (next b) xs ≡ true → prev' (next b) ≡ prev b)
        → Seg next' prev' (if h == b then next b else h) a (erase b xs) z
    erase-Seg h a [] s d out end i left right = absurd (ground arith)
    erase-Seg h a (x ∷ xs) (link, back, s) (single, d) out end i left right =
        elim (Bool-cases (x == b)) [
          | inl same ↦
              let e : x ≡ b = (==_iff x b).0 same in
              let s' : Seg next prev (next b) b xs z = rw (← e) s in
              let test : (h == b) ≡ true = rw link same in
              rw (same, test)
                (erase-first a xs s' (rw (← e) back) d (ground arith) (λ m. right (ground arith)))
          | inr differs ↦
              let i' : has b xs ≡ true = ground arith in
              let test : (h == b) ≡ false = rw link differs in
              let away : x ≢ next b = elim (next-inside b (next x) x xs s i') [
                | inl e ↦ λ f. ground arith
                | inr m ↦ λ f. has_ne (next b) x xs m single (sym f)
              ] in
              let rest =
                erase-Seg (next x) x xs s d single (ground arith) i' (λ m. left (ground arith))
                  (λ m. right (ground arith)) in
              let ahead = next-erase x xs s i' single (λ m. left (ground arith)) in
              rw (test, differs) (link, prev-spares x away ∙ back, rw ahead rest)
        ]

  -- The list with `b` at its end.
  pub snoc-Seg :
      (b h a : ℕ) (xs : List ℕ)
      → Seg next prev h a xs z
      → Distinct xs
      → ((j : ℕ) → has j xs ≡ true → j ≢ last_or a xs → next' j ≡ next j)
      → ((j : ℕ) → has j xs ≡ true → prev' j ≡ prev j)
      → (has (last_or a xs) xs ≡ true → next' (last_or a xs) ≡ b)
      → next' b ≡ z
      → prev' b ≡ last_or a xs
      → Seg next' prev' (first_or b xs) a (xs ++ b ∷ []) z
  snoc-Seg b h a [] s d keep same join close behind = (refl, behind, close)
  snoc-Seg b h a (x ∷ []) (link, back, s) d keep same join close behind =
      (refl, same x (ground arith) ∙ back, (join (ground arith), behind, close))
  snoc-Seg b h a (x ∷ y ∷ ys) (link, back, s) (single, d) keep same join close behind =
      let ahead : next' x ≡ y =
        keep x (ground arith)
          (λ e. has_ne (last_or y ys) x (y ∷ ys) (has-last_or y ys) single (sym e))
        ∙ s.0 in
      (
        refl,
        same x (ground arith) ∙ back,
        rw ahead (
            snoc-Seg b (next x) x (y ∷ ys) s d (λ j i. keep j (ground arith))
              (λ j i. same j (ground arith)) (λ m. join (ground arith)) close behind),
      )

  -- The last of a list without `b`.
  pub last_or-erase :
      (b h a : ℕ) (xs : List ℕ)
      → Seg next prev h a xs z
      → has z xs ≡ false
      → Distinct xs
      → has b xs ≡ true
      → last_or a (erase b xs) ≡ (if next b == z then prev b else last_or a xs)
  last_or-erase b h a [] s end d i = absurd (ground arith)
  last_or-erase b h a (x ∷ []) (link, back, s) end d i =
      let e : b ≡ x = ground arith in
      let t : (x == x) ≡ true = ==_refl x in
      let u : (next x == z) ≡ true = (==_iff _ _).1 s in rw (e, t, u) (sym back)
  last_or-erase b h a (x ∷ y ∷ ys) (link, back, s) end (single, d) i = elim (Bool-cases (x == b)) [
    | inl same ↦
        let e : x ≡ b = (==_iff x b).0 same in
        let u : (next b == z) ≡ false = rw (← e, s.0) (ground arith) in rw (same, u)
    | inr differs ↦
        rw differs (last_or-erase b (next x) x (y ∷ ys) s (ground arith) d (ground arith))
  ]

  -- The list with another end.
  pub retarget-Seg :
      (z' h a : ℕ) (xs : List ℕ)
      → Seg next prev h a xs z
      → Distinct xs
      → ((j : ℕ) → has j xs ≡ true → j ≢ last_or a xs → next' j ≡ next j)
      → ((j : ℕ) → has j xs ≡ true → prev' j ≡ prev j)
      → (has (last_or a xs) xs ≡ true → next' (last_or a xs) ≡ z')
      → Seg next' prev' (first_or z' xs) a xs z'
  retarget-Seg z' h a [] s d keep same join = refl
  retarget-Seg z' h a (x ∷ []) (link, back, s) d keep same join =
      (refl, same x (ground arith) ∙ back, join (ground arith))
  retarget-Seg z' h a (x ∷ y ∷ ys) (link, back, s) (single, d) keep same join =
      let apart = has_ne (last_or y ys) x (y ∷ ys) (has-last_or y ys) single in
      let ahead : next' x ≡ y = keep x (ground arith) (λ e. apart (sym e)) ∙ s.0 in
      (
        refl,
        same x (ground arith) ∙ back,
        rw ahead (
            retarget-Seg z' (next x) x (y ∷ ys) s d (λ j i. keep j (ground arith))
              (λ j i. same j (ground arith)) (λ m. join (ground arith))),
      )

  -- None of a list's places is linked to itself.
  pub no_loop :
      (b h a : ℕ) (xs : List ℕ)
      → Seg next prev h a xs z
      → Distinct xs
      → has a xs ≡ false
      → has z xs ≡ false
      → has b xs ≡ true
      → (next b ≢ b) × (prev b ≢ b)
  no_loop b h a [] s d out end i = absurd (ground arith)
  no_loop b h a (x ∷ xs) (link, back, s) (single, d) out end i = elim (Bool-cases (x == b)) [
    | inl same ↦
        let e : x ≡ b = (==_iff x b).0 same in
        rw (← e) (first_apart x xs s single (ground arith), λ f. ground arith)
    | inr differs ↦ no_loop b (next x) x xs s d single (ground arith) (ground arith)
  ]
    where
      first_apart :
          (x : ℕ) (xs : List ℕ)
          → Seg next prev (next x) x xs z
          → has x xs ≡ false
          → x ≢ z
          → next x ≢ x
      first_apart x [] s single ne e = ne (sym e ∙ s)
      first_apart x (y ∷ ys) (link, _, _) single ne e = ground arith

pub last_or-snoc : (a b : ℕ) (xs : List ℕ) → last_or a (xs ++ b ∷ []) ≡ b
last_or-snoc a b [] = refl
last_or-snoc a b (x ∷ xs) = last_or-snoc x b xs

pub has_of-erase : (i b : ℕ) (xs : List ℕ) → has i (erase b xs) ≡ true → has i xs ≡ true
has_of-erase i b [] h = h
has_of-erase i b (x ∷ xs) h = ground (arith, has_of-erase i b xs)

pub has_ne-erase : (i b : ℕ) (xs : List ℕ) → i ≢ b → has i (erase b xs) ≡ has i xs
has_ne-erase i b [] ne = refl
has_ne-erase i b (x ∷ xs) ne = ground (arith, has_ne-erase i b xs)

pub erase-absent : (b : ℕ) (xs : List ℕ) → has b xs ≡ false → erase b xs ≡ xs
erase-absent b [] h = refl
erase-absent b (x ∷ xs) h = ground (arith, erase-absent b xs)

pub first-absent :
    (next prev : ℕ → ℕ) (b h a z : ℕ) (xs : List ℕ)
    → Seg next prev h a xs z
    → has b xs ≡ false
    → b ≢ z
    → h ≢ b
first-absent next prev b h a z [] s out ne e = ne (sym e ∙ s)
first-absent next prev b h a z (x ∷ xs) (link, _, _) out ne e = ground arith

pub first-inside :
    (next prev : ℕ → ℕ) (h a z : ℕ) (xs : List ℕ) → Seg next prev h a xs z → h ≢ z → has h xs ≡ true
first-inside next prev h a z [] s ne = absurd (ne s)
first-inside next prev h a z (x ∷ xs) (link, _, _) ne = ground arith

pub suc-erase : (b : ℕ) (xs : List ℕ) → has b xs ≡ true → suc (length (erase b xs)) ≡ length xs
suc-erase b [] h = absurd (ground arith)
suc-erase b (x ∷ xs) h = ground (arith, suc-erase b xs)

-- Distinct members of a list are no more than it has.
pub length-le :
    (xs ys : List ℕ)
    → Distinct xs
    → ((i : ℕ) → has i xs ≡ true → has i ys ≡ true)
    → length xs ≤ length ys
length-le [] ys d inside = omega arith
length-le (x ∷ xs) ys (single, d) inside =
    let rest = length-le xs (erase x ys) d λ i m.
      let away = has_ne i x xs m single in has_ne-erase i x ys away ∙ inside i (ground arith) in
    omega (arith, rest, suc-erase x ys (inside x (ground arith)))
