-- ===== src/Vsprintf/Format/Verbatim.antt =====
-- kernel/vsprintf.c: the characters of a format that are copied, and a width given by `*`.
use rhee_creatives_linux_v.Base.{
  ℕ, suc, ◌+◌, ◌<◌, ◌^◌, ◌≡◌, refl, sym, ◌∙◌, ap, ap₂, Option, none, some, Bool, true, false,
  if◌then◌else◌, ◌==◌, leb, List, [], ◌∷◌, ◌++◌, length, append-nil, length-append, arith,
  Bool-cases, inl, inr,
}
use rhee_creatives_linux_v.Base.Int.{negsuc}
use rhee_creatives_linux_v.Vsprintf.{no_flags, skip_atoi, number}
use rhee_creatives_linux_v.Vsprintf.Decimal.{skip_atoi-number}
use rhee_creatives_linux_v.Vsprintf.Format.{
  Arg, word, Output, read_flags, read_width, read_precision, skip_qualifier, convert, convert_at,
  format_loop, vsprintf, in_front,
}

-- No `%`.
abbrev pub is_plain : List ℕ → Bool
is_plain [] = true
is_plain (c ∷ s) = if c == 37 then false else is_plain s

in_front-nil : (o : Option Output) → in_front [] none o ≡ o
in_front-nil none = refl
in_front-nil (some o) = refl

in_front-cons :
    (c : ℕ) (s : List ℕ) (o : Option Output)
    → in_front (c ∷ []) none (in_front s none o) ≡ in_front (c ∷ s) none o
in_front-cons c s none = refl
in_front-cons c s (some o) = refl

-- The loop at another spelling of the same fuel and count.
same_loop :
    (rest : List ℕ) (args : List Arg) (f g m n : ℕ)
    → f ≡ g
    → m ≡ n
    → format_loop f m rest args ≡ format_loop g n rest args
same_loop rest args f g m n e h = ap₂ (λ f m. format_loop f m rest args) e h

plain_round :
    (fuel sofar c : ℕ) (s : List ℕ) (args : List Arg)
    → (c == 37) ≡ false
    → format_loop (suc fuel) sofar (c ∷ s) args
      ≡ in_front (c ∷ []) none (format_loop fuel (sofar + 1) s args)
unfolding format_loop
plain_round fuel sofar c s args h = rw (format_loop, h) refl

format_loop-plain :
    (s : List ℕ) (sofar fuel : ℕ) (args : List Arg) (rest : List ℕ)
    → is_plain s ≡ true
    → format_loop (length s + fuel) sofar (s ++ rest) args
      ≡ in_front s none (format_loop fuel (sofar + length s) rest args)
format_loop-plain [] sofar fuel args rest h =
    same_loop rest args (0 + fuel) fuel sofar (sofar + 0) (omega arith) (omega arith)
    ∙ sym (in_front-nil _)
format_loop-plain (c ∷ s) sofar fuel args rest h = elim (Bool-cases (c == 37)) [
  | inl percent ↦ absurd (ground (arith, percent))
  | inr other ↦
      same_loop (c ∷ s ++ rest) args (suc (length s) + fuel) (suc (length s + fuel)) sofar sofar
        (omega arith) refl
      ∙ plain_round (length s + fuel) sofar c (s ++ rest) args other
      ∙ ap (in_front (c ∷ []) none)
          (format_loop-plain s (sofar + 1) fuel args rest (ground (arith, other)))
      ∙ in_front-cons c s _
      ∙ ap (in_front (c ∷ s) none) (
          same_loop rest args fuel fuel (sofar + 1 + length s) (sofar + suc (length s)) refl
            (omega arith))
]

-- The loop at `%u` at the end of the format.
decimal_round :
    (sofar n : ℕ) (shown : List ℕ)
    → number n 10 (negsuc 0) (negsuc 0) no_flags ≡ some shown
    → format_loop 3 sofar (37 ∷ 117 ∷ []) (word n ∷ [])
      ≡ some (record { chars = shown; stores = [] })
unfolding format_loop convert_at convert read_flags read_width read_precision skip_qualifier
decimal_round sofar n shown printed =
    rw (format_loop, printed)
      (ap (λ (chars : List ℕ). some (record { chars = chars; stores = [] })) (append-nil shown))

-- A width given by `*` takes its argument, but the `*` is not skipped: the conversion is then that
-- of the character `*`, which is shown after a `%`, whatever the character after it.
pub convert_at-star :
    (sofar n : ℕ) (s : List ℕ) (args : List Arg)
    → convert_at sofar (42 ∷ s) (word n ∷ args)
      ≡ some (record { shown = 37 ∷ 42 ∷ []; fmt = s; args = args; stored = none })
unfolding convert_at convert read_flags read_width read_precision skip_qualifier
convert_at-star sofar n s args = elim (Bool-cases (leb (2 ^ 31) n)) [
  | inl below ↦ rw (convert_at, below) refl
  | inr positive ↦ rw (convert_at, positive) refl
]

-- A format of plain characters and then `%u`, with a number of 32 bits: the characters are copied
-- as they are, and then stand the digits from which `skip_atoi` reads the number back.
pub vsprintf-skip_atoi :
    (s : List ℕ) (n : ℕ)
    → is_plain s ≡ true
    → n < 2 ^ 32
    → (digits : List ℕ) × (vsprintf (s ++ 37 ∷ 117 ∷ []) (word n ∷ [])
        ≡ some (record { chars = s ++ digits; stores = [] }))
      × (skip_atoi digits ≡ (n, []))
unfolding vsprintf
vsprintf-skip_atoi s n h fits =
    let (digits, printed, back) = skip_atoi-number n [] fits refl in
    (
      digits,
      same_loop (s ++ 37 ∷ 117 ∷ []) (word n ∷ []) (suc (length (s ++ 37 ∷ 117 ∷ [])))
            (length s + 3) 0 0 (omega (arith, length-append s (37 ∷ 117 ∷ []))) refl
          ∙ format_loop-plain s 0 3 (word n ∷ []) (37 ∷ 117 ∷ []) h
          ∙ ap (in_front s none) (decimal_round (0 + length s) n digits printed),
      ap skip_atoi (sym (append-nil digits)) ∙ back,
    )
