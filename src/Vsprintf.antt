-- ===== src/Vsprintf.antt =====
-- kernel/vsprintf.c: numbers and formats. A string is the list of its characters, without the zero
-- at its end; an `int` that is printed is given by its 32 bits.
pub mod Decimal
pub mod Format
use rhee_creatives_linux_v.Base.{
  ℕ, zero, suc, ◌+◌, ◌-◌, ◌*◌, ◌/◌, ◌%◌, ◌^◌, Option, none, some, Bool, true, false, ◌&&◌, ◌||◌,
  not, if◌then◌else◌, ◌==◌, ltb, leb, List, [], ◌∷◌, ◌++◌, length, replicate,
}
use rhee_creatives_linux_v.Base.Int.{ℤ, pos, negsuc, pos_part, ◌-ℤ◌, ltb_ℤ}

abbrev pub is_digit : ℕ → Bool
is_digit c = leb 48 c && leb c 57

-- `i` by its 32 bits.
unfoldable pub atoi_loop : ℕ → List ℕ → ℕ × List ℕ
atoi_loop i [] = (i, [])
atoi_loop i (c ∷ s) = if is_digit c then atoi_loop ((i * 10 + c - 48) % 2 ^ 32) s else (i, c ∷ s)

unfoldable pub skip_atoi : List ℕ → ℕ × List ℕ
skip_atoi s = atoi_loop 0 s

-- ZEROPAD, SIGN, PLUS, SPACE, LEFT, SPECIAL and SMALL.
pub record Flags : Type 0 where
  pub zeropad : Bool
  pub sign : Bool
  pub plus : Bool
  pub space : Bool
  pub left : Bool
  pub special : Bool
  pub small : Bool

abbrev pub no_flags : Flags
no_flags = record {
  zeropad = false;
  sign = false;
  plus = false;
  space = false;
  left = false;
  special = false;
  small = false;
}

-- `digits[d]`, in upper or lower case.
abbrev pub digit : Bool → ℕ → ℕ
digit small d = if ltb d 10 then 48 + d else (if small then 87 + d else 55 + d)

-- `while (num!=0) tmp[i++]=digits[do_div(num,base)];` on fuel, with the division of unsigned
-- numbers: 32 rounds are enough for a base from 2 on.
unfoldable pub digits_of : ℕ → Bool → ℕ → ℕ → List ℕ
digits_of zero small base num = []
digits_of (suc fuel) small base num =
    let rest = digits_of fuel small base (num / base) in
    if num == 0 then [] else digit small (num % base) ∷ rest

abbrev pub tmp_of : Bool → ℕ → ℕ → List ℕ
tmp_of small base num = if num == 0 then 48 ∷ [] else digits_of 32 small base num

-- `while(i-->0) *str++ = tmp[i];`, in front of `out`.
unfoldable pub emit : List ℕ → List ℕ → List ℕ
emit [] out = out
emit (c ∷ tmp) out = emit tmp (c ∷ out)

-- `while(size-->0) *str++ = c;`: the characters, and the size after it.
unfoldable pub pad : ℕ → ℤ → List ℕ × ℤ
pad c size = (replicate (pos_part size) c, if ltb_ℤ (pos 0) size then negsuc 0 else size -ℤ pos 1)

-- The sign character, where there is one, and the number without it.
abbrev pub sign_of : Flags → ℕ → List ℕ × ℕ
sign_of f num =
    if f.sign && leb (2 ^ 31) num
    then (45 ∷ [], (2 ^ 32 - num) % 2 ^ 32)
    else (if f.plus then 43 ∷ [] else (if f.space then 32 ∷ [] else []), num)

-- The prefix of SPECIAL: `0` or `0X`.
abbrev pub prefix_of : Flags → ℕ → List ℕ
prefix_of f base =
    if f.special
    then (if base == 8
        then 48 ∷ []
        else (if base == 16 then 48 ∷ (if f.small then 120 else 88) ∷ [] else []))
    else []

abbrev pub larger : ℤ → ℤ → ℤ
larger a b = if ltb_ℤ b a then a else b

-- `number`, for a base from 2 to 36: what it appends to `str`. `none` is the 0 that it returns.
unfoldable pub number : ℕ → ℕ → ℤ → ℤ → Flags → Option (List ℕ)
number num base size precision f =
    let zeros = f.zeropad && not f.left in
    let (sign, n) = sign_of f num in
    let prefix = prefix_of f base in
    let tmp = tmp_of f.small base n in
    let wide = larger (pos (length tmp)) precision in
    let size0 = size -ℤ pos (length sign) -ℤ pos (length prefix) -ℤ wide in
    let (before, size1) = if not (zeros || f.left) then pad 32 size0 else ([], size0) in
    let (fill, size2) = if not f.left then pad (if zeros then 48 else 32) size1 else ([], size1) in
    let lead = replicate (pos_part (wide -ℤ pos (length tmp))) 48 in
    let (after, size3) = pad 32 size2 in
    if ltb base 2 || ltb 36 base
    then none
    else some (before ++ sign ++ prefix ++ fill ++ lead ++ emit tmp after)
