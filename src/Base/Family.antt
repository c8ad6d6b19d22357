-- ===== src/Base/Family.antt =====
-- Tables indexed by a number: a C array whose bound the loops keep, or memory by address.
use Prim.Native.Nat.{ℕ, zero, suc, ◌+◌, ◌≤◌, ◌<◌}
use mathlib.Core.Path.{◌≡◌, refl}
use mathlib.Core.Bool.{Bool, false}
use native.Mathlib.Omega.{arith}
use native.Mathlib.Decide.{dec_lt}
use mathlib.Core.Path.{subst, sym}
use mathlib.Core.Logic.{◌≢◌}
use rhee_creatives_linux_v.Base.Tests.{◌==◌, if◌then◌else◌}

-- The table after `t[i] = v`.
abbrev pub update {ℓ} : {A : Type ℓ} → (ℕ → A) → ℕ → A → ℕ → A
update t i v j = if j == i then v else t j

pub update_ne {ℓ} : {A : Type ℓ} (t : ℕ → A) (i j : ℕ) (v : A) → j ≢ i → update t i v j ≡ t j
update_ne t i j v h = ground arith

pub update_self {ℓ} : {A : Type ℓ} (t : ℕ → A) (i : ℕ) (v : A) → update t i v i ≡ v
update_self t i v = ground arith

-- A statement about the numbers up to `suc k`, from the last one and the ones before.
pub up_to_suc {ℓ} :
    {k : ℕ} (P : ℕ → Type ℓ) → P (suc k) → ((j : ℕ) → j ≤ k → P j) → (j : ℕ) → j ≤ suc k → P j
up_to_suc {k} P last before j h = elim (dec_lt j (suc k)) [
  | yes p ↦ before j (omega arith)
  | no p ↦ let e : j ≡ suc k = omega arith in subst P (sym e) last
]

-- How many of the first `n` entries pass the test.
module _ {ℓ} {A : Type ℓ} (p : A → Bool) where
  unfoldable pub count : ℕ → (ℕ → A) → ℕ
  count zero t = 0
  count (suc n) t = count n t + (if p (t n) then 1 else 0)

  pub count-update_of_le :
      (n : ℕ) (t : ℕ → A) (i : ℕ) (v : A) → n ≤ i → count n (update t i v) ≡ count n t
  unfolding count
  count-update_of_le zero t i v h = refl
  count-update_of_le (suc n) t i v h = ground (arith, count-update_of_le n t i v)

  pub count-update :
      (n : ℕ) (t : ℕ → A) (i : ℕ) (v : A)
      → i < n
      → count n (update t i v) + (if p (t i) then 1 else 0) ≡ count n t + (if p v then 1 else 0)
  unfolding count
  count-update zero t i v h = absurd (omega arith)
  count-update (suc n) t i v h = ground (arith, count-update n t i v, count-update_of_le n t i v)

  pub count-le : (n : ℕ) (t : ℕ → A) → count n t ≤ n
  unfolding count
  count-le zero t = omega arith
  count-le (suc n) t = ground (arith, count-le n t)

  pub count-eq_zero : (n : ℕ) (t : ℕ → A) → ((j : ℕ) → j < n → p (t j) ≡ false) → count n t ≡ 0
  unfolding count
  count-eq_zero zero t h = refl
  count-eq_zero (suc n) t h =
      rw (h n (omega arith)) (omega (arith, count-eq_zero n t (λ j l. h j (omega (arith, l)))))

  -- The first entry, and the ones after it.
  pub count-suc :
      (n : ℕ) (t : ℕ → A) → count (suc n) t ≡ (if p (t 0) then 1 else 0) + count n (λ j. t (suc j))
  unfolding count
  count-suc zero t = omega arith
  count-suc (suc n) t = omega (arith, count-suc n t)

  pub count_congr : (n : ℕ) (t u : ℕ → A) → ((j : ℕ) → j < n → t j ≡ u j) → count n t ≡ count n u
  unfolding count
  count_congr zero t u h = refl
  count_congr (suc n) t u h =
      rw (h n (omega arith)) (omega (arith, count_congr n t u (λ j l. h j (omega (arith, l)))))

  pub count-zero : (t : ℕ → A) → count 0 t ≡ 0
  unfolding count
  count-zero t = refl
