-- ===== src/Examples/Printing.antt =====
-- kernel/vsprintf.c at concrete inputs.
use rhee_creatives_linux_v.Base.{ℕ, ◌≡◌, refl, none, some, List, [], ◌∷◌, ◌++◌, arith}
use rhee_creatives_linux_v.Base.Int.{negsuc, ◌-ℤ◌}
use rhee_creatives_linux_v.Vsprintf.{skip_atoi, number, digits_of, emit, pad, no_flags}
use rhee_creatives_linux_v.Vsprintf.Decimal.{skip_atoi-number}
use rhee_creatives_linux_v.Vsprintf.Format.{word, vsprintf, convert_at}
use rhee_creatives_linux_v.Vsprintf.Format.Verbatim.{vsprintf-skip_atoi, convert_at-star}

skip_atoi-number_example :
    (s : List ℕ) × (number 1991 10 (negsuc 0) (negsuc 0) no_flags ≡ some s)
    × (skip_atoi (s ++ 46 ∷ []) ≡ (1991, 46 ∷ []))
skip_atoi-number_example = skip_atoi-number 1991 (46 ∷ []) (omega arith) refl

-- The digits of 1991.
printed : number 1991 10 (negsuc 0) (negsuc 0) no_flags ≡ some (49 ∷ 57 ∷ 57 ∷ 49 ∷ [])
unfolding number digits_of emit pad ◌-ℤ◌
printed = refl

vsprintf-skip_atoi_example :
    (digits : List ℕ) × (vsprintf (104 ∷ 105 ∷ 37 ∷ 117 ∷ []) (word 7 ∷ [])
      ≡ some (record { chars = 104 ∷ 105 ∷ digits; stores = [] }))
    × (skip_atoi digits ≡ (7, []))
vsprintf-skip_atoi_example = vsprintf-skip_atoi (104 ∷ 105 ∷ []) 7 refl (omega arith)

convert_at-star_example :
    convert_at 0 (42 ∷ 100 ∷ []) (word 5 ∷ word 7 ∷ [])
    ≡ some (record { shown = 37 ∷ 42 ∷ []; fmt = 100 ∷ []; args = word 7 ∷ []; stored = none })
convert_at-star_example = convert_at-star 0 5 (100 ∷ []) (word 7 ∷ [])
