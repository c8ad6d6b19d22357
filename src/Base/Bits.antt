-- ===== src/Base/Bits.antt =====
-- Single bits of a word: `1 << n`, `|`, `& ~` and the test, with the laws that relate them.
use Prim.Native.Nat.{
  ℕ, zero, suc, ◌+◌, ◌-◌, ◌*◌, ◌/◌, ◌%◌, ◌^◌, ◌≤◌, ◌<◌, min, max, bit_and, bit_or, digits,
  bit_and-bitwise, bit_or-bitwise,
}
use native.Mathlib.Nat.{pow-suc, one-le-pow, div-add-mod}
use mathlib.Core.Path.{◌≡◌, refl, ap, ◌∙◌}
use mathlib.Core.Logic.{inl, inr}
use mathlib.Core.Bool.{Bool, true, false, not, ◌&&◌, ◌||◌}
use native.Mathlib.Omega.{arith}
use rhee_creatives_linux_v.Base.Tests.{◌==◌, ==_iff, Bool-cases}

-- `(w >> n) & 1`, as a truth value.
unfoldable pub bit : ℕ → ℕ → Bool
bit w zero = w % 2 == 1
bit w (suc n) = bit (w / 2) n

-- `w | (1 << n)`.
abbrev pub with_bit : ℕ → ℕ → ℕ
with_bit w n = bit_or w (2 ^ n)

-- `w & ~(1 << n)` on a word of `k` bits.
abbrev pub without_bit : ℕ → ℕ → ℕ → ℕ
without_bit k w n = bit_and w (2 ^ k - 1 - 2 ^ n)

-- The digits of a bitwise operation do not depend on the fuel, once it is enough: `alone` is the
-- operation on a number that is left over, `join` that on two digits.
module _ (alone : ℕ → ℕ) (join : ℕ → ℕ → ℕ) where
  one_round_more : (n a b : ℕ) → a ≤ n → digits alone join (suc n) a b ≡ digits alone join n a b
  one_round_more zero zero b h = refl
  one_round_more (suc n) zero b h = refl
  one_round_more zero (suc a) b h = absurd (omega arith)
  one_round_more (suc n) (suc a) b h =
      omega (arith, one_round_more n (suc a / 2) (b / 2) (omega arith))

  exact_fuel : (n a b : ℕ) → a ≤ n → digits alone join n a b ≡ digits alone join a a b
  exact_fuel zero zero b h = refl
  exact_fuel zero (suc a) b h = absurd (omega arith)
  exact_fuel (suc n) a b h = elim (Bool-cases (a == suc n)) [
    | inl same ↦ let e : a ≡ suc n = (==_iff a (suc n)).0 same in rw e refl
    | inr less ↦ one_round_more n a b (ground arith) ∙ exact_fuel n a b (ground arith)
  ]

-- Both operations by their lowest digits.
bit_or_step : (a b : ℕ) → bit_or a b ≡ bit_or (a / 2) (b / 2) * 2 + max (a % 2) (b % 2)
bit_or_step zero b = omega (arith, bit_or-bitwise 0 b, bit_or-bitwise 0 (b / 2))
bit_or_step (suc a) b =
    let fuel = exact_fuel (λ b. b) max a (suc a / 2) (b / 2) (omega arith) in
    omega (arith, bit_or-bitwise (suc a) b, bit_or-bitwise (suc a / 2) (b / 2), fuel)

bit_and_step : (a b : ℕ) → bit_and a b ≡ bit_and (a / 2) (b / 2) * 2 + min (a % 2) (b % 2)
bit_and_step zero b = omega (arith, bit_and-bitwise 0 b, bit_and-bitwise 0 (b / 2))
bit_and_step (suc a) b =
    let fuel = exact_fuel (λ b. zero) min a (suc a / 2) (b / 2) (omega arith) in
    omega (arith, bit_and-bitwise (suc a) b, bit_and-bitwise (suc a / 2) (b / 2), fuel)

-- Both operations with zero on the right.
against_zero : (n a : ℕ) → a ≤ n → (bit_or a 0 ≡ a) × (bit_and a 0 ≡ 0)
against_zero n zero h = (refl, refl)
against_zero zero (suc a) h = absurd (omega arith)
against_zero (suc n) (suc a) h =
    let (either, common) = against_zero n (suc a / 2) (omega arith) in
    (omega (arith, bit_or_step (suc a) 0, either), omega (arith, bit_and_step (suc a) 0, common))

-- One place down.
pub bit_half : (w n : ℕ) → bit (w / 2) n ≡ bit w (n + 1)
unfolding bit
bit_half w n = let e : n + 1 ≡ suc n = omega arith in rw e refl

pub zero-bit : (n : ℕ) → bit 0 n ≡ false
unfolding bit
zero-bit zero = refl
zero-bit (suc n) = zero-bit n

pub bit-bit_or : (a b n : ℕ) → bit (bit_or a b) n ≡ (bit a n || bit b n)
unfolding bit
bit-bit_or a b zero = ground (arith, bit_or_step a b)
bit-bit_or a b (suc n) = rw half (bit-bit_or (a / 2) (b / 2) n)
  where
    half : bit_or a b / 2 ≡ bit_or (a / 2) (b / 2)
    half = omega (arith, bit_or_step a b)

pub bit-bit_and : (a b n : ℕ) → bit (bit_and a b) n ≡ (bit a n && bit b n)
unfolding bit
bit-bit_and a b zero = ground (arith, bit_and_step a b)
bit-bit_and a b (suc n) = rw half (bit-bit_and (a / 2) (b / 2) n)
  where
    half : bit_and a b / 2 ≡ bit_and (a / 2) (b / 2)
    half = omega (arith, bit_and_step a b)

-- `1 << m` has the one bit `m`.
pub bit-pow : (m n : ℕ) → bit (2 ^ m) n ≡ (n == m)
unfolding bit
bit-pow zero zero = refl
bit-pow zero (suc n) = ground (arith, zero-bit n)
bit-pow (suc m) zero = ground (arith, pow-suc 2 m)
bit-pow (suc m) (suc n) = rw half (ground (arith, bit-pow m n))
  where
    half : 2 ^ suc m / 2 ≡ 2 ^ m
    half = omega (arith, pow-suc 2 m)

pow-le : (m k : ℕ) → m < k → 2 ^ m < 2 ^ k
pow-le zero (suc k) h = omega (arith, pow-suc 2 k, one-le-pow k 2 (omega arith))
pow-le (suc m) (suc k) h = omega (arith, pow-suc 2 k, pow-suc 2 m, pow-le m k (omega arith))
pow-le m zero h = absurd (omega arith)

pub bit-ones : (k n : ℕ) → n < k → bit (2 ^ k - 1) n ≡ true
unfolding bit
bit-ones zero n h = absurd (omega arith)
bit-ones (suc k) zero h = ground (arith, pow-suc 2 k, one-le-pow k 2 (omega arith))
bit-ones (suc k) (suc n) h =
    let half : (2 ^ suc k - 1) / 2 ≡ 2 ^ k - 1 = omega (arith, pow-suc 2 k) in
    rw half (bit-ones k n (omega arith))

-- `~(1 << m)` of `k` bits has all bits below `k` but `m`.
pub bit-mask : (k m n : ℕ) → m < k → n < k → bit (2 ^ k - 1 - 2 ^ m) n ≡ not (n == m)
unfolding bit
bit-mask zero m n hm hn = absurd (omega arith)
bit-mask (suc k) zero zero hm hn = ground (arith, pow-suc 2 k, one-le-pow k 2 (omega arith))
bit-mask (suc k) zero (suc n) hm hn = rw half (ground (arith, bit-ones k n))
  where
    half : (2 ^ suc k - 1 - 2 ^ 0) / 2 ≡ 2 ^ k - 1
    half = omega (arith, pow-suc 2 k)
bit-mask (suc k) (suc m) zero hm hn =
    ground (arith, pow-suc 2 k, pow-suc 2 m, pow-le m k (omega arith))
bit-mask (suc k) (suc m) (suc n) hm hn = rw half (ground (arith, bit-mask k m n))
  where
    half : (2 ^ suc k - 1 - 2 ^ suc m) / 2 ≡ 2 ^ k - 1 - 2 ^ m
    half = omega (arith, pow-suc 2 k, pow-suc 2 m)

-- Setting bit `n` makes it one and leaves the others.
pub bit-with_bit : (w n j : ℕ) → bit (with_bit w n) j ≡ (bit w j || (j == n))
bit-with_bit w n j = rw (bit-bit_or, bit-pow)

-- Clearing bit `n` makes it zero and leaves the others.
pub bit-without_bit :
    (k w n j : ℕ) → n < k → j < k → bit (without_bit k w n) j ≡ (bit w j && not (j == n))
bit-without_bit k w n j hn hj = rw (bit-bit_and, bit-mask k n j hn hj)

pub bit_or-zero : (a : ℕ) → bit_or a 0 ≡ a
bit_or-zero a = (against_zero a a (omega arith)).0

-- `x | 7` of a multiple of 8, and `x | 2`.
pub bit_or_seven : (x : ℕ) → x % 8 ≡ 0 → bit_or x 7 ≡ x + 7
bit_or_seven x h = omega (
  arith,
  bit_or_step x 7,
  bit_or_step (x / 2) 3,
  bit_or_step (x / 2 / 2) 1,
  bit_or-zero (x / 2 / 2 / 2),
)

pub bit_or_two : (x : ℕ) → bit_or x 2 ≡ x + 2 * (1 - x / 2 % 2)
bit_or_two x = omega (arith, bit_or_step x 2, bit_or_step (x / 2) 1, bit_or-zero (x / 2 / 2))

bit_and-low : (k q r : ℕ) → r < 2 ^ k → bit_and (q * 2 ^ k + r) (2 ^ k - 1) ≡ r
bit_and-low zero q r h =
    omega (arith, (against_zero (q * 2 ^ 0 + r) (q * 2 ^ 0 + r) (omega arith)).1)
bit_and-low (suc k) q r h = ground (
  arith,
  bit_and_step (q * 2 ^ suc k + r) (2 ^ suc k - 1),
  ap (λ (p : ℕ). q * p) (pow-suc 2 k),
  pow-suc 2 k,
  one-le-pow k 2,
  bit_and-low k q (r / 2),
)

-- `x & (2 ^ k - 1)` is the remainder.
pub bit_and-mask : (k a : ℕ) → bit_and a (2 ^ k - 1) ≡ a % 2 ^ k
bit_and-mask k a =
    ground (arith, one-le-pow k 2, bit_and-low k (a / 2 ^ k) (a % 2 ^ k), div-add-mod a (2 ^ k))

-- `x & ~2` of a 32-bit word.
pub without_bit_one : (x : ℕ) → x < 2 ^ 32 → without_bit 32 x 1 ≡ x - 2 * (x / 2 % 2)
without_bit_one x h =
    omega (
      arith,
      bit_and_step x 4294967293,
      bit_and_step (x / 2) 2147483646,
      bit_and-mask 30 (x / 2 / 2),
    )

-- `x & 4`.
pub bit_and_four : (x : ℕ) → bit_and x 4 ≡ 4 * (x / 4 % 2)
bit_and_four x = omega (arith, bit_and_step x 4, bit_and_step (x / 2) 2, bit_and-mask 1 (x / 2 / 2))
