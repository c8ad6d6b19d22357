-- ===== src/Mktime/Calendar.antt =====
-- The Gregorian calendar, and the seconds of kernel/mktime.c.
use rhee_creatives_linux_v.Base.{
  ℕ, zero, suc, ◌+◌, ◌-◌, ◌*◌, ◌/◌, ◌%◌, ◌≤◌, ◌<◌, ◌^◌, some, get_elem?, Bool, true, false, ◌&&◌,
  ◌||◌, not, if◌then◌else◌, ◌==◌, ltb, arith, ◌≡◌, refl, ap, Bool-cases, inl, inr, ◌∙◌,
}
use rhee_creatives_linux_v.Base.Int.{
  pos, ◌-ℤ◌, rem_ℤ, ◌==ℤ◌, wrap32_eq_self, pos-+ℤ, pos-*ℤ, pos--ℤ,
}
use rhee_creatives_linux_v.Mktime.{
  Tm, minute, hour, day, year_seconds, month, sum_terms, kernel_mktime,
}

-- Leap years by the Gregorian rule.
abbrev pub is_leap : ℕ → Bool
is_leap y = y % 4 == 0 && (not (y % 100 == 0) || y % 400 == 0)

-- The days of a month, counted from 0.
abbrev pub month_length : Bool → ℕ → ℕ
month_length leap m =
    if m == 1
    then (if leap then 29 else 28)
    else (if m == 3 || (m == 5 || (m == 8 || m == 10)) then 30 else 31)

-- The days of the `n` years from 1970 on, and of the first `m` months of a year.
unfoldable pub days_of_years : ℕ → ℕ
days_of_years zero = 0
days_of_years (suc n) = days_of_years n + (if is_leap (1970 + n) then 366 else 365)

unfoldable pub days_of_months : Bool → ℕ → ℕ
days_of_months leap zero = 0
days_of_months leap (suc m) = days_of_months leap m + month_length leap m

-- A calendar date and time of day.
pub record Date : Type 0 where
  pub year : ℕ
  pub mon : ℕ
  pub mday : ℕ
  pub hours : ℕ
  pub mins : ℕ
  pub secs : ℕ

pub record IsDate (d : Date) : Type 0 where
  pub from_1970 : 1970 ≤ d.year
  pub mon_lt : d.mon < 12
  pub mday_pos : 1 ≤ d.mday
  pub mday_le : d.mday ≤ month_length (is_leap d.year) d.mon

-- Days since 1970-01-01, and seconds since its start.
unfoldable pub days : Date → ℕ
days d = days_of_years (d.year - 1970) + days_of_months (is_leap d.year) d.mon + (d.mday - 1)

unfoldable pub seconds : Date → ℕ
seconds d = day * days d + hour * d.hours + minute * d.mins + d.secs

-- What `struct tm` holds for a date.
abbrev pub tm_of : Date → Tm
tm_of d = record {
  tm_sec = pos d.secs;
  tm_min = pos d.mins;
  tm_hour = pos d.hours;
  tm_mday = pos d.mday;
  tm_mon = d.mon;
  tm_year = pos (d.year - 1900);
}

days_of_years_lem : (n : ℕ) → n ≤ 130 → days_of_years n ≡ 365 * n + (n + 1) / 4
unfolding days_of_years
days_of_years_lem zero h = refl
days_of_years_lem (suc n) h = ground (arith, days_of_years_lem n (omega arith))

days_of_years-le : (n : ℕ) → 365 * n ≤ days_of_years n
unfolding days_of_years
days_of_years-le zero = omega arith
days_of_years-le (suc n) = ground (arith, days_of_years-le n)

-- The table holds the days of the months of a leap year; a common year has one less from March on.
month-days_of_months : (m : ℕ) → m < 12 → get_elem? month m ≡ some (day * days_of_months true m)
unfolding days_of_months
month-days_of_months zero h = refl
month-days_of_months (suc zero) h = refl
month-days_of_months (suc (suc zero)) h = refl
month-days_of_months (suc (suc (suc zero))) h = refl
month-days_of_months (suc (suc (suc (suc zero)))) h = refl
month-days_of_months (suc (suc (suc (suc (suc zero))))) h = refl
month-days_of_months (suc (suc (suc (suc (suc (suc zero)))))) h = refl
month-days_of_months (suc (suc (suc (suc (suc (suc (suc zero))))))) h = refl
month-days_of_months (suc (suc (suc (suc (suc (suc (suc (suc zero)))))))) h = refl
month-days_of_months (suc (suc (suc (suc (suc (suc (suc (suc (suc zero))))))))) h = refl
month-days_of_months (suc (suc (suc (suc (suc (suc (suc (suc (suc (suc zero)))))))))) h = refl
month-days_of_months (suc (suc (suc (suc (suc (suc (suc (suc (suc (suc (suc zero))))))))))) h = refl
month-days_of_months (suc (suc (suc (suc (suc (suc (suc (suc (suc (suc (suc (suc m)))))))))))) h =
    absurd (omega arith)

common-days_of_months :
    (m : ℕ) → days_of_months true m ≡ days_of_months false m + (if ltb 1 m then 1 else 0)
unfolding days_of_months
common-days_of_months zero = refl
common-days_of_months (suc m) = ground (arith, common-days_of_months m)

-- The source takes a day back from March on in a common year.
abbrev late : ℕ → ℕ → Bool
late mon n = ltb 1 mon && not ((n + 2) % 4 == 0)

-- The terms at a year from 1970 on and a day from 1 on, over the natural numbers.
sum_terms_nat :
    (d : Date) (before : ℕ)
    → IsDate d
    → (late d.mon (d.year - 1970) ≡ true → day ≤ before)
    → sum_terms (tm_of d) before
      ≡ pos (
          year_seconds * (d.year - 1970)
          + day * ((d.year - 1970 + 1) / 4)
          + (before - (if late d.mon (d.year - 1970) then day else 0))
          + day * (d.mday - 1)
          + hour * d.hours
          + minute * d.mins
          + d.secs)
unfolding sum_terms
sum_terms_nat d before v enough =
    rw (y, pos--ℤ d.mday 1 v.mday_pos)
      (simp (pos-+ℤ, pos-*ℤ)
        (rw test (elim (Bool-cases (late d.mon (d.year - 1970))) [
          | inl t ↦
              rw
                (
                  t,
                  pos--ℤ (year_seconds * (d.year - 1970) + day * ((d.year - 1970 + 1) / 4) + before)
                      day (omega (arith, enough t)),
                )
                (simp (pos-+ℤ) (ap pos (omega (arith, enough t))))
          | inr f ↦ rw f (simp (pos-+ℤ) (ap pos (omega arith)))
        ])))
  where
    y : pos (d.year - 1900) -ℤ pos 70 ≡ pos (d.year - 1970)
    y = pos--ℤ _ _ (omega (arith, v.from_1970)) ∙ ap pos (omega arith)

    test :
        (ltb 1 d.mon && not (rem_ℤ (pos (d.year - 1970 + 2)) 4 ==ℤ pos 0))
        ≡ late d.mon (d.year - 1970)
    test = ground arith

-- From March on the months of a leap year have more than a day.
day-le : (m : ℕ) → ltb 1 m ≡ true → 1 ≤ days_of_months true m
unfolding days_of_months
day-le zero h = cc
day-le (suc zero) h = cc
day-le (suc (suc m)) h = ground (arith, day-le (suc m))

late-day-le : (m n : ℕ) → late m n ≡ true → day ≤ day * days_of_months true m
late-day-le m n h = ground (arith, day-le m)

year-lt : (d : Date) → seconds d < 2 ^ 31 → d.year - 1970 < 130
unfolding seconds days
year-lt d fits = omega (arith, days_of_years-le (d.year - 1970))

-- Over the natural numbers, the source's sum is the calendar's.
nat-seconds :
    (d : Date)
    → IsDate d
    → d.year - 1970 < 130
    → year_seconds * (d.year - 1970)
        + day * ((d.year - 1970 + 1) / 4)
        + (day * days_of_months true d.mon - (if late d.mon (d.year - 1970) then day else 0))
        + day * (d.mday - 1)
        + hour * d.hours
        + minute * d.mins
        + d.secs
      ≡ seconds d
unfolding seconds days
nat-seconds d v h = ground (
  arith,
  days_of_years_lem (d.year - 1970) (omega arith),
  common-days_of_months d.mon,
  day-le d.mon,
)

-- For a date from 1970 on whose seconds fit 31 bits, `kernel_mktime` of its broken-down time
-- returns the seconds since the start of 1970 that the Gregorian calendar counts.
pub kernel_mktime-seconds :
    (d : Date) → IsDate d → seconds d < 2 ^ 31 → kernel_mktime (tm_of d) ≡ some (pos (seconds d))
unfolding kernel_mktime
kernel_mktime-seconds d v fits = rw (
  month-days_of_months d.mon v.mon_lt,
  sum_terms_nat d (day * days_of_months true d.mon) v (late-day-le d.mon (d.year - 1970)),
  nat-seconds d v (year-lt d fits),
  wrap32_eq_self (pos (seconds d)) (omega arith),
)
