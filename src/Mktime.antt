-- ===== src/Mktime.antt =====
-- kernel/mktime.c: the seconds since 1970 of a broken-down time.
pub mod Calendar
use mathlib.Core.Option
use rhee_creatives_linux_v.Base.{
  ℕ, ◌+◌, ◌*◌, Option, none, some, List, [], ◌∷◌, get_elem?, Bool, ltb, ◌&&◌, not, if◌then◌else◌,
}
use rhee_creatives_linux_v.Base.Int.{ℤ, pos, negsuc, ◌+ℤ◌, ◌-ℤ◌, ◌*ℤ◌, ◌==ℤ◌, div_ℤ, rem_ℤ, wrap32}

-- The fields of `struct tm` that the kernel reads; the year counts from 1900, the month from 0.
pub record Tm : Type 0 where
  pub tm_sec : ℤ
  pub tm_min : ℤ
  pub tm_hour : ℤ
  pub tm_mday : ℤ
  pub tm_mon : ℕ
  pub tm_year : ℤ

abbrev pub minute : ℕ
minute = 60

abbrev pub hour : ℕ
hour = 60 * minute

abbrev pub day : ℕ
day = 24 * hour

abbrev pub year_seconds : ℕ
year_seconds = 365 * day

-- The table of the seconds before each month of a leap year.
abbrev pub month : List ℕ
month =
    0
    ∷ (day * 31)
    ∷ (day * (31 + 29))
    ∷ (day * (31 + 29 + 31))
    ∷ (day * (31 + 29 + 31 + 30))
    ∷ (day * (31 + 29 + 31 + 30 + 31))
    ∷ (day * (31 + 29 + 31 + 30 + 31 + 30))
    ∷ (day * (31 + 29 + 31 + 30 + 31 + 30 + 31))
    ∷ (day * (31 + 29 + 31 + 30 + 31 + 30 + 31 + 31))
    ∷ (day * (31 + 29 + 31 + 30 + 31 + 30 + 31 + 31 + 30))
    ∷ (day * (31 + 29 + 31 + 30 + 31 + 30 + 31 + 31 + 30 + 31))
    ∷ (day * (31 + 29 + 31 + 30 + 31 + 30 + 31 + 31 + 30 + 31 + 30))
    ∷ []

-- The sum of the terms, once the table has been read.
pub sum_terms : Tm → ℕ → ℤ
sum_terms tm before =
    let year : ℤ = tm.tm_year -ℤ pos 70 in
    let whole : ℤ = pos year_seconds *ℤ year +ℤ pos day *ℤ div_ℤ (year +ℤ pos 1) 4 in
    let months : ℤ = whole +ℤ pos before in
    let common : ℤ =
      if ltb 1 tm.tm_mon && not (rem_ℤ (year +ℤ pos 2) 4 ==ℤ pos 0)
      then months -ℤ pos day
      else months in
    common
    +ℤ pos day *ℤ (tm.tm_mday -ℤ pos 1)
    +ℤ pos hour *ℤ tm.tm_hour
    +ℤ pos minute *ℤ tm.tm_min
    +ℤ tm.tm_sec

-- `none` is a read outside the table. The additions wrap, and so does their sum.
pub kernel_mktime : Tm → Option ℤ
unfolding sum_terms
kernel_mktime tm = Option.map (λ before. wrap32 (sum_terms tm before)) (get_elem? month tm.tm_mon)
