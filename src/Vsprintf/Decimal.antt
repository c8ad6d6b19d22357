-- ===== src/Vsprintf/Decimal.antt =====
-- kernel/vsprintf.c: printing a number in base 10 and reading it.
use rhee_creatives_linux_v.Base.{
  ℕ, zero, suc, ◌+◌, ◌-◌, ◌*◌, ◌/◌, ◌%◌, ◌^◌, ◌<◌, ◌≡◌, refl, ◌∙◌, ap, some, Bool, true, false, not,
  ◌==◌, List, [], ◌∷◌, ◌++◌, length, arith, Bool-cases, inl, inr, ==_iff,
}
use rhee_creatives_linux_v.Base.Int.{pos, negsuc, ◌-ℤ◌}
use rhee_creatives_linux_v.Vsprintf.{
  is_digit, atoi_loop, skip_atoi, no_flags, digit, digits_of, tmp_of, emit, pad, number, larger,
}
use native.Mathlib.Nat.{pow-suc}

-- Reading a digit.
atoi_loop-digit :
    (small : Bool) (i d : ℕ) (s : List ℕ)
    → d < 10
    → i * 10 + d < 2 ^ 32
    → atoi_loop i (digit small d ∷ s) ≡ atoi_loop (i * 10 + d) s
unfolding atoi_loop
atoi_loop-digit small i d s h fits =
    let c : digit small d ≡ 48 + d = ground arith in
    let is : is_digit (48 + d) ≡ true = ground arith in
    let m : (i * 10 + (48 + d) - 48) % 2 ^ 32 ≡ i * 10 + d = omega arith in rw (c, is, m) refl

-- Reading the digits of a number, and going on with the number.
atoi_loop-emit :
    (fuel : ℕ) (small : Bool) (n : ℕ) (s : List ℕ)
    → n < 2 ^ fuel
    → n < 2 ^ 32
    → atoi_loop 0 (emit (digits_of fuel small 10 n) s) ≡ atoi_loop n s
unfolding digits_of emit
atoi_loop-emit zero small n s h fits = let e : n ≡ 0 = omega arith in rw e refl
atoi_loop-emit (suc fuel) small n s h fits = elim (Bool-cases (n == 0)) [
  | inl none_left ↦ let e : n ≡ 0 = (==_iff n 0).0 none_left in rw e refl
  | inr more ↦ rw more (
      atoi_loop-emit fuel small (n / 10) (digit small (n % 10) ∷ s) (omega (arith, pow-suc 2 fuel))
        (omega arith)
      ∙ atoi_loop-digit small (n / 10) (n % 10) s (omega arith) (omega arith)
      ∙ ap (λ m. atoi_loop m s) (omega arith))
]

emit-append : (tmp out rest : List ℕ) → emit tmp out ++ rest ≡ emit tmp (out ++ rest)
unfolding emit
emit-append [] out rest = refl
emit-append (c ∷ tmp) out rest = emit-append tmp (c ∷ out) rest

-- The sizes with a width and a precision of -1.
larger_length : (k : ℕ) → larger (pos k) (negsuc 0) ≡ pos k
larger_length k = ground arith

no_room : (k : ℕ) → negsuc 0 -ℤ pos 0 -ℤ pos 0 -ℤ pos k ≡ negsuc k
unfolding ◌-ℤ◌
no_room k = ground arith

pad-negsuc : (c k : ℕ) → pad c (negsuc k) ≡ ([], negsuc (k + 1))
unfolding pad ◌-ℤ◌
pad-negsuc c k = ground arith

same-ℤ : (k : ℕ) → pos k -ℤ pos k ≡ pos 0
unfolding ◌-ℤ◌
same-ℤ k = ground arith

number-plain :
    (n : ℕ) → number n 10 (negsuc 0) (negsuc 0) no_flags ≡ some (emit (tmp_of false 10 n) [])
unfolding number
number-plain n =
    let k : ℕ = length (tmp_of false 10 n) in
    rw
      (
        larger_length k,
        no_room k,
        pad-negsuc 32 k,
        pad-negsuc 32 (k + 1),
        pad-negsuc 32 (k + 1 + 1),
        same-ℤ k,
      )
      refl

-- What `skip_atoi` leaves.
abbrev pub no_digit : List ℕ → Bool
no_digit [] = true
no_digit (c ∷ s) = not (is_digit c)

atoi_loop-stop : (n : ℕ) (s : List ℕ) → no_digit s ≡ true → atoi_loop n s ≡ (n, s)
unfolding atoi_loop
atoi_loop-stop n [] h = refl
atoi_loop-stop n (c ∷ s) h = ground arith

read_back :
    (n : ℕ) (rest : List ℕ)
    → n < 2 ^ 32
    → no_digit rest ≡ true
    → skip_atoi (emit (tmp_of false 10 n) rest) ≡ (n, rest)
unfolding skip_atoi emit
read_back n rest h stop = elim (Bool-cases (n == 0)) [
  | inl none_left ↦
      let e : n ≡ 0 = (==_iff n 0).0 none_left in
      rw none_left (
        atoi_loop-digit false 0 0 rest (omega arith) (omega arith)
        ∙ ap (λ m. atoi_loop m rest) (omega arith)
        ∙ atoi_loop-stop n rest stop)
  | inr more ↦ rw more (atoi_loop-emit 32 false n rest h h ∙ atoi_loop-stop n rest stop)
]

-- Printed in base 10 with no flags, width or precision, every number of 32 bits is read back by
-- `skip_atoi`, up to the first character after it that is no digit.
pub skip_atoi-number :
    (n : ℕ) (rest : List ℕ)
    → n < 2 ^ 32
    → no_digit rest ≡ true
    → (s : List ℕ) × (number n 10 (negsuc 0) (negsuc 0) no_flags ≡ some s)
      × (skip_atoi (s ++ rest) ≡ (n, rest))
skip_atoi-number n rest h stop = (
  emit (tmp_of false 10 n) [],
  number-plain n,
  ap skip_atoi (emit-append (tmp_of false 10 n) [] rest) ∙ read_back n rest h stop,
)
