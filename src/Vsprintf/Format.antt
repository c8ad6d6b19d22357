-- ===== src/Vsprintf/Format.antt =====
-- kernel/vsprintf.c: `vsprintf` on a format and its arguments.
pub mod Verbatim
use rhee_creatives_linux_v.Base.{
  ℕ, zero, suc, ◌+◌, ◌-◌, ◌%◌, ◌^◌, Option, none, some, Bool, true, false, ◌&&◌, ◌||◌, not,
  if◌then◌else◌, ◌==◌, ltb, leb, List, [], ◌∷◌, ◌++◌, length, replicate, take,
}
use rhee_creatives_linux_v.Base.Int.{ℤ, pos, negsuc, pos_part, ◌-ℤ◌, ◌==ℤ◌, ltb_ℤ, signed32}
use rhee_creatives_linux_v.Vsprintf.{Flags, no_flags, is_digit, skip_atoi, number}

-- An argument: a number, a character or an address by its 32 bits, or a string.
pub data Arg : Type 0 where
  word : ℕ → Arg
  text : List ℕ → Arg

-- `va_arg(args, int)` and `va_arg(args, char *)`: `none` where the caller passed something else.
abbrev pub next_word : List Arg → Option (ℕ × List Arg)
next_word [] = none
next_word (word n ∷ args) = some (n, args)
next_word (text s ∷ args) = none

abbrev pub next_text : List Arg → Option (List ℕ × List Arg)
next_text [] = none
next_text (word n ∷ args) = none
next_text (text s ∷ args) = some (s, args)

-- The switch at `repeat`: a flag is added, or the flags end.
abbrev pub add_flag : ℕ → Flags → Option Flags
add_flag c f =
    if c == 45
    then some (record f { left = true })
    else if c == 43
    then some (record f { plus = true })
    else if c == 32
    then some (record f { space = true })
    else if c == 35
    then some (record f { special = true })
    else if c == 48
    then some (record f { zeropad = true })
    else none

unfoldable pub read_flags : List ℕ → Flags → Flags × List ℕ
read_flags [] f = (f, [])
read_flags (c ∷ s) f = elim (add_flag c f) [ none ↦ (f, c ∷ s) | some g ↦ read_flags s g ]

-- What has been read of a conversion: flags, width, precision, the rest of the format and of the
-- arguments.
pub record Spec : Type 0 where
  pub flags : Flags
  pub field_width : ℤ
  pub precision : ℤ
  pub fmt : List ℕ
  pub args : List Arg

-- A number in the format, or `*`: it is the next argument, and `fmt` stays at the `*`.
unfoldable pub read_width : Spec → Option Spec
read_width sp = elim sp.fmt [
  | [] ↦ some sp
  | c ∷ s ↦
      if is_digit c
      then some
          (record sp { field_width = signed32 (skip_atoi (c ∷ s)).0; fmt = (skip_atoi (c ∷ s)).1 })
      else if c == 42
      then elim (next_word sp.args) [
        | none ↦ none
        | some (n, args) ↦
            if leb (2 ^ 31) n
            then some (record sp {
              field_width = signed32 ((2 ^ 32 - n) % 2 ^ 32);
              flags = record (sp.flags) { left = true };
              args = args;
            })
            else some (record sp { field_width = signed32 n; args = args })
      ]
      else some sp
]

-- `if (precision < 0) precision = 0;`
abbrev pub at_least_zero : ℤ → ℤ
at_least_zero p = if ltb_ℤ p (pos 0) then pos 0 else p

unfoldable pub after_dot : List ℕ → Spec → Option Spec
after_dot [] sp = some (record sp { precision = pos 0; fmt = [] })
after_dot (c ∷ s) sp =
    if is_digit c
    then some (record sp {
      precision = at_least_zero (signed32 (skip_atoi (c ∷ s)).0);
      fmt = (skip_atoi (c ∷ s)).1;
    })
    else if c == 42
    then elim (next_word sp.args) [
      | none ↦ none
      | some (n, args) ↦
          some (record sp { precision = at_least_zero (signed32 n); fmt = c ∷ s; args = args })
    ]
    else some (record sp { precision = pos 0; fmt = c ∷ s })

unfoldable pub read_precision : Spec → Option Spec
read_precision sp = elim sp.fmt [
  | [] ↦ some sp
  | c ∷ s ↦ if c == 46 then after_dot s sp else some sp
]

-- `h`, `l` or `L` is skipped.
unfoldable pub skip_qualifier : List ℕ → List ℕ
skip_qualifier [] = []
skip_qualifier (c ∷ s) = if c == 104 || c == 108 || c == 76 then s else c ∷ s

-- Characters that a conversion appends, the format and the arguments after it, and the number that
-- `%n` stores.
pub record Step : Type 0 where
  pub shown : List ℕ
  pub fmt : List ℕ
  pub args : List Arg
  pub stored : Option ℕ

abbrev pub blanks : ℤ → List ℕ
blanks n = replicate (pos_part n) 32

abbrev pub show_char : Spec → List ℕ → Option Step
show_char sp s = elim (next_word sp.args) [
  | none ↦ none
  | some (n, args) ↦
      let room = blanks (sp.field_width -ℤ pos 1) in
      some (record {
        shown = if sp.flags.left then n % 256 ∷ room else room ++ n % 256 ∷ [];
        fmt = s;
        args = args;
        stored = none;
      })
]

abbrev pub show_text : Spec → List ℕ → Option Step
show_text sp s = elim (next_text sp.args) [
  | none ↦ none
  | some (t, args) ↦
      let cut = if ltb_ℤ sp.precision (pos 0) then t else take (pos_part sp.precision) t in
      let room = blanks (sp.field_width -ℤ pos (length cut)) in
      some (record {
        shown = if sp.flags.left then cut ++ room else room ++ cut;
        fmt = s;
        args = args;
        stored = none;
      })
]

abbrev pub show_number : ℕ → Flags → ℤ → Spec → List ℕ → Option Step
show_number base f width sp s = elim (next_word sp.args) [
  | none ↦ none
  | some (n, args) ↦ elim (number n base width sp.precision f) [
    | none ↦ none
    | some shown ↦ some (record { shown = shown; fmt = s; args = args; stored = none })
  ]
]

-- `switch (*fmt)`, with `sofar` characters written before.
unfoldable pub convert : ℕ → Spec → Option Step
convert sofar sp = elim sp.fmt [
  | [] ↦ some (record { shown = 37 ∷ []; fmt = []; args = sp.args; stored = none })
  | c ∷ s ↦
      if c == 99
      then show_char sp s
      else if c == 115
      then show_text sp s
      else if c == 111
      then show_number 8 sp.flags sp.field_width sp s
      else if c == 112
      then (if sp.field_width ==ℤ negsuc 0
          then show_number 16 (record (sp.flags) { zeropad = true }) (pos 8) sp s
          else show_number 16 sp.flags sp.field_width sp s)
      else if c == 120
      then show_number 16 (record (sp.flags) { small = true }) sp.field_width sp s
      else if c == 88
      then show_number 16 sp.flags sp.field_width sp s
      else if c == 100 || c == 105
      then show_number 10 (record (sp.flags) { sign = true }) sp.field_width sp s
      else if c == 117
      then show_number 10 sp.flags sp.field_width sp s
      else if c == 110
      then elim (next_word sp.args) [
        | none ↦ none
        | some (n, args) ↦ some (record { shown = []; fmt = s; args = args; stored = some sofar })
      ]
      else if c == 37
      then some (record { shown = 37 ∷ []; fmt = s; args = sp.args; stored = none })
      else some (record { shown = 37 ∷ c ∷ []; fmt = s; args = sp.args; stored = none })
]

-- From the character after `%` on.
unfoldable pub convert_at : ℕ → List ℕ → List Arg → Option Step
convert_at sofar fmt args =
    let (flags, s) = read_flags fmt no_flags in
    elim (read_width (record {
      flags = flags;
      field_width = negsuc 0;
      precision = negsuc 0;
      fmt = s;
      args = args;
    })) [
      | none ↦ none
      | some sp ↦ elim (read_precision sp) [
        | none ↦ none
        | some sq ↦ convert sofar (record sq { fmt = skip_qualifier (sq.fmt) })
      ]
    ]

-- The characters written, and the numbers stored by `%n`.
pub record Output : Type 0 where
  pub chars : List ℕ
  pub stores : List ℕ

abbrev pub with_store : Option ℕ → List ℕ → List ℕ
with_store none ns = ns
with_store (some n) ns = n ∷ ns

abbrev pub in_front : List ℕ → Option ℕ → Option Output → Option Output
in_front shown stored none = none
in_front shown stored (some o) =
    some (record { chars = shown ++ o.chars; stores = with_store stored o.stores })

-- The loop over the format, on fuel: each round takes at least one character of it.
unfoldable pub format_loop : ℕ → ℕ → List ℕ → List Arg → Option Output
format_loop zero sofar fmt args = none
format_loop (suc fuel) sofar [] args = some (record { chars = []; stores = [] })
format_loop (suc fuel) sofar (c ∷ s) args =
    let plain = in_front (c ∷ []) none (format_loop fuel (sofar + 1) s args) in
    let converted : Option Output = elim (convert_at sofar s args) [
      | none ↦ none
      | some st ↦
          in_front st.shown st.stored (format_loop fuel (sofar + length st.shown) st.fmt st.args)
    ] in
    if not (c == 37) then plain else converted

-- The result of the function is the length of `chars`.
unfoldable pub vsprintf : List ℕ → List Arg → Option Output
vsprintf fmt args = format_loop (suc (length fmt)) 0 fmt args
