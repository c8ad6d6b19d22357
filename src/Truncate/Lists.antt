-- ===== src/Truncate/Lists.antt =====
-- fs/truncate.c: the zones of a list block, and what they depend on.
use rhee_creatives_linux_v.Base.{
  ℕ, zero, suc, ◌+◌, ◌≡◌, refl, ◌∙◌, ap, ap₂, Bool, true, ◌==◌, if◌then◌else◌, arith, Bool-cases,
  ==_refl, List, [], ◌∷◌, ◌++◌, has, has-append, inl, inr,
}

-- The zones that the loop over the words of a block frees, when it frees `sub z` for the word `z`.
unfoldable pub list_words : ℕ → ℕ → (ℕ → List ℕ) → (ℕ → ℕ) → List ℕ
list_words zero i sub w = []
list_words (suc k) i sub w = (if w i == 0 then [] else sub (w i)) ++ list_words k (i + 1) sub w

-- A list block with what it lists, if it can be read.
abbrev pub list_block : (ℕ → List ℕ) → (ℕ → ℕ → ℕ) → (ℕ → Bool) → ℕ → List ℕ
list_block sub word readable block =
    if block == 0
    then []
    else (if readable block then list_words 512 0 sub (word block) else []) ++ block ∷ []

-- The zones that `free_ind` frees.
abbrev pub ind_zones : (ℕ → ℕ → ℕ) → (ℕ → Bool) → ℕ → List ℕ
ind_zones word readable block = list_block (λ z. z ∷ []) word readable block

abbrev pub dind_zones : (ℕ → ℕ → ℕ) → (ℕ → Bool) → ℕ → List ℕ
dind_zones word readable block = list_block (ind_zones word readable) word readable block

-- Two devices that show the same at the zones `xs`.
abbrev pub Agree : (word word' : ℕ → ℕ → ℕ) (readable readable' : ℕ → Bool) → List ℕ → Type 0
Agree word word' readable readable' xs =
    (b : ℕ) → has b xs ≡ true → (word' b ≡ word b) × (readable' b ≡ readable b)

module _ (sub : (ℕ → ℕ → ℕ) → (ℕ → Bool) → ℕ → List ℕ) (word word' : ℕ → ℕ → ℕ)
    (readable readable' : ℕ → Bool)
    (stable : (z : ℕ)
      → Agree word word' readable readable' (sub word readable z)
      → sub word' readable' z ≡ sub word readable z) where
  pub list_words-stable :
      (k i : ℕ) (w : ℕ → ℕ)
      → Agree word word' readable readable' (list_words k i (sub word readable) w)
      → list_words k i (sub word' readable') w ≡ list_words k i (sub word readable) w
  unfolding list_words
  list_words-stable zero i w same = refl
  list_words-stable (suc k) i w same =
      let here = if w i == 0 then [] else sub word readable (w i) in
      let later = list_words k (i + 1) (sub word readable) w in
      let first : (if w i == 0 then [] else sub word' readable' (w i)) ≡ here =
        head (w i) (λ b h. same b (rw (has-append b here later, h) refl)) in
      ap₂ (λ xs ys. xs ++ ys) first
        (list_words-stable k (i + 1) w
          (λ b h. same b (rw (has-append b here later, h) (ground arith))))
    where
      head :
          (z : ℕ)
          → Agree word word' readable readable' (if z == 0 then [] else sub word readable z)
          → (if z == 0 then [] else sub word' readable' z)
            ≡ (if z == 0 then [] else sub word readable z)
      head z agree = elim (Bool-cases (z == 0)) [
        | inl none_there ↦ rw none_there refl
        | inr there ↦ rw there (stable z (rw there at agree))
      ]

  pub list_block-stable :
      (block : ℕ)
      → Agree word word' readable readable' (list_block (sub word readable) word readable block)
      → list_block (sub word' readable') word' readable' block
        ≡ list_block (sub word readable) word readable block
  list_block-stable block agree = elim (Bool-cases (block == 0)) [
    | inl none_there ↦ rw none_there refl
    | inr there ↦ let own = rw there at agree in rw there (listed own)
  ]
    where
      inner :
          Agree word word' readable readable'
            (if readable block then list_words 512 0 (sub word readable) (word block) else [])
          → (if readable block then list_words 512 0 (sub word' readable') (word block) else [])
            ≡ (if readable block then list_words 512 0 (sub word readable) (word block) else [])
      inner own = elim (Bool-cases (readable block)) [
        | inl there ↦ rw there (list_words-stable 512 0 (word block) (rw there at own))
        | inr bad ↦ rw bad refl
      ]

      listed :
          Agree word word' readable readable' (
            (if readable block then list_words 512 0 (sub word readable) (word block) else [])
            ++ block ∷ [])
          → (if readable' block then list_words 512 0 (sub word' readable') (word' block) else [])
              ++ block ∷ []
            ≡ (if readable block then list_words 512 0 (sub word readable) (word block) else [])
              ++ block ∷ []
      listed own =
          let xs =
            if readable block then list_words 512 0 (sub word readable) (word block) else [] in
          let (words, reads) =
            own block (rw (has-append block xs (block ∷ []), ==_refl block) (ground arith)) in
          ap (λ ys. ys ++ block ∷ [])
            (ap₂ (λ (r : Bool) w. if r then list_words 512 0 (sub word' readable') w else []) reads
                words
              ∙ inner (λ b h. own b (rw (has-append b xs (block ∷ []), h) refl)))

module _ (word word' : ℕ → ℕ → ℕ) (readable readable' : ℕ → Bool) where
  pub ind_zones-stable :
      (block : ℕ)
      → Agree word word' readable readable' (ind_zones word readable block)
      → ind_zones word' readable' block ≡ ind_zones word readable block
  ind_zones-stable = list_block-stable (λ _ _ z. z ∷ []) word word' readable readable' (λ z _. refl)

  pub dind_zones-stable :
      (block : ℕ)
      → Agree word word' readable readable' (dind_zones word readable block)
      → dind_zones word' readable' block ≡ dind_zones word readable block
  dind_zones-stable = list_block-stable ind_zones word word' readable readable' ind_zones-stable
