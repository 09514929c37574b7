-- ===== src/Audit/Timestamp/Civil.antt =====
-- The date that gmtime gives is a date of the calendar, and the one of its second.
use anything_tool.Base.{
  ℕ, zero, suc, ◌+◌, ◌-◌, ◌*◌, ◌/◌, ◌%◌, ◌≤◌, ◌<◌, ◌≡◌, refl, sym, ◌∙◌, subst, some, List, [], ◌∷◌,
  arith, ltb, ltb→lt, ltb-false, Bool-cases, inl, inr, get_elem?, take, All-append,
}
use anything_tool.Text.Decimal.{decimal, decimal-IsVisible}
use anything_tool.Json.Escape.{IsVisible}
use anything_tool.Json.Visible.{Visible}
use anything_tool.Audit.Timestamp.{
  Tm, days_in_year, month_lengths, split_year, split_month, gmtime, two_digits, format_time,
  timestamp_utc,
}

two_digits-Visible : (n : ℕ) → Visible (two_digits n)
unfolding two_digits
two_digits-Visible n = elim (Bool-cases (ltb n 10)) [
  | inl few ↦ rw few (omega arith, decimal-IsVisible n)
  | inr many ↦ rw many (decimal-IsVisible n)
]

pub timestamp_utc-Visible : (now : ℕ) → Visible (timestamp_utc now)
unfolding timestamp_utc format_time
timestamp_utc-Visible now =
    let t = gmtime now in
    let join = All-append IsVisible in
    join (decimal t.year) _ (decimal-IsVisible t.year) (
      omega arith,
      join (two_digits t.month) _ (two_digits-Visible t.month) (
        omega arith,
        join (two_digits t.day) _ (two_digits-Visible t.day) (
          omega arith,
          join (two_digits t.hour) _ (two_digits-Visible t.hour) (
            omega arith,
            join (two_digits t.minute) _ (two_digits-Visible t.minute) (
              omega arith,
              join (two_digits t.second) _ (two_digits-Visible t.second) (omega arith, tt),
            ),
          ),
        ),
      ),
    )

-- The days of n years from y on.
abbrev pub days_of_years : ℕ → ℕ → ℕ
days_of_years y zero = 0
days_of_years y (suc n) = days_in_year y + days_of_years (y + 1) n

abbrev pub sum : List ℕ → ℕ
sum [] = 0
sum (n ∷ ns) = n + sum ns

year_long : (y : ℕ) → 365 ≤ days_in_year y
year_long y = ground arith

split_year-days :
    (fuel y d : ℕ)
    → d < fuel * 365
    → (n : ℕ) × ((split_year fuel y d).0 ≡ y + n)
      × (d ≡ days_of_years y n + (split_year fuel y d).1)
      × ((split_year fuel y d).1 < days_in_year (split_year fuel y d).0)
unfolding split_year
split_year-days zero y d h = absurd (omega arith)
split_year-days (suc fuel) y d h = elim (Bool-cases (ltb d (days_in_year y))) [
  | inl here ↦ rw here (0, omega arith, omega arith, ltb→lt d (days_in_year y) here)
  | inr later ↦
      let enough : d - days_in_year y < fuel * 365 =
        omega (arith, year_long y, ltb-false d (days_in_year y) later) in
      let (n, year, days, inside) = split_year-days fuel (y + 1) (d - days_in_year y) enough in
      rw later (
        suc n,
        omega (arith, year),
        omega (arith, days, ltb-false d (days_in_year y) later),
        inside,
      )
]

split_month-days :
    (m : ℕ) (ns : List ℕ) (d : ℕ)
    → d < sum ns
    → (k : ℕ) × (len : ℕ) × ((split_month m ns d).0 ≡ m + k)
      × (get_elem? ns k ≡ some len)
      × (d ≡ sum (take k ns) + (split_month m ns d).1)
      × ((split_month m ns d).1 < len)
unfolding split_month
split_month-days m [] d h = absurd (omega arith)
split_month-days m (n ∷ ns) d h = elim (Bool-cases (ltb d n)) [
  | inl here ↦ rw here (0, n, omega arith, refl, omega arith, ltb→lt d n here)
  | inr later ↦
      let (k, len, month, at, days, inside) =
        split_month-days (m + 1) ns (d - n) (omega (arith, ltb-false d n later)) in
      rw later
        (suc k, len, omega (arith, month), at, omega (arith, days, ltb-false d n later), inside)
]

sum-month_lengths : (y : ℕ) → sum (month_lengths y) ≡ days_in_year y
sum-month_lengths y = ground arith

days_split : (days : ℕ) → days < (days / 365 + 1) * 365
days_split days = omega arith

-- The seconds from 1970 to a date.
abbrev pub seconds_of : Tm → ℕ
seconds_of t =
    let days =
      days_of_years 1970 (t.year - 1970)
      + sum (take (t.month - 1) (month_lengths t.year))
      + (t.day - 1) in
    days * 86400 + t.hour * 3600 + t.minute * 60 + t.second

-- A date of the calendar and a time of the day.
pub record IsCivil (t : Tm) : Type 0 where
  pub length_of_month : ℕ
  pub month_first : 1 ≤ t.month
  pub month_is : get_elem? (month_lengths t.year) (t.month - 1) ≡ some length_of_month
  pub day_first : 1 ≤ t.day
  pub day_last : t.day ≤ length_of_month
  pub hour_last : t.hour < 24
  pub minute_last : t.minute < 60
  pub second_last : t.second < 60

seconds_apart :
    (s : ℕ)
    → s < 86400
    → (s / 3600 < 24)
      × (s / 60 % 60 < 60)
      × (s % 60 < 60)
      × (s / 3600 * 3600 + s / 60 % 60 * 60 + s % 60 ≡ s)
seconds_apart s h = (omega arith, omega arith, omega arith, omega arith)

module _ (t : Tm) (now n k d len : ℕ) (year : t.year ≡ 1970 + n) (month : t.month ≡ 1 + k)
    (day : t.day ≡ d + 1) (hour : t.hour ≡ now % 86400 / 3600)
    (minute : t.minute ≡ now % 86400 / 60 % 60) (second : t.second ≡ now % 86400 % 60) where
  date-IsCivil : get_elem? (month_lengths t.year) k ≡ some len → d < len → IsCivil t
  date-IsCivil at last =
      let (h, m, s, all) = seconds_apart (now % 86400) (omega arith) in
      record {
        length_of_month = len;
        month_first = omega arith;
        month_is =
            subst (λ j. get_elem? (month_lengths t.year) j ≡ some len) (omega (arith, month)) at;
        day_first = omega arith;
        day_last = omega arith;
        hour_last = omega (arith, hour, h);
        minute_last = omega (arith, minute, m);
        second_last = omega (arith, second, s);
      }

  civil_seconds :
      now / 86400 ≡ days_of_years 1970 n + sum (take k (month_lengths t.year)) + d
      → seconds_of t ≡ now
  civil_seconds days =
      let (h, m, s, all) = seconds_apart (now % 86400) (omega arith) in
      let years : t.year - 1970 ≡ n = omega arith in
      let months : t.month - 1 ≡ k = omega arith in
      rw (years, months) (omega (arith, days, day, hour, minute, second, all))

module _ (now : ℕ) where
  abbrev year_part : ℕ × ℕ
  year_part = split_year (now / 86400 / 365 + 1) 1970 (now / 86400)

  abbrev month_part : ℕ × ℕ
  month_part = split_month 1 (month_lengths year_part.0) year_part.1

  date :
      ((gmtime now).year ≡ year_part.0)
      × ((gmtime now).month ≡ month_part.0)
      × ((gmtime now).day ≡ month_part.1 + 1)
      × ((gmtime now).hour ≡ now % 86400 / 3600)
      × ((gmtime now).minute ≡ now % 86400 / 60 % 60)
      × ((gmtime now).second ≡ now % 86400 % 60)
  unfolding gmtime
  date = (refl, refl, refl, refl, refl, refl)

  gmtime-IsCivil : IsCivil (gmtime now) × (seconds_of (gmtime now) ≡ now)
  gmtime-IsCivil =
      let (year_is, month_is, day_is, hour, minute, second) = date in
      let (n, year, days, inside) =
        split_year-days (now / 86400 / 365 + 1) 1970 (now / 86400) (days_split (now / 86400)) in
      let (k, len, month, at, rest, last) =
        split_month-days 1 (month_lengths year_part.0) year_part.1
          (subst (λ m. year_part.1 < m) (sym (sum-month_lengths year_part.0)) inside) in
      (
        date-IsCivil (gmtime now) now n k month_part.1 len (year_is ∙ year) (month_is ∙ month)
            day_is hour minute second
            (subst (λ y. get_elem? (month_lengths y) k ≡ some len) (sym year_is) at) last,
        civil_seconds (gmtime now) now n k month_part.1 len (year_is ∙ year) (month_is ∙ month)
            day_is hour minute second
            (subst
              (λ y.
                now / 86400 ≡ days_of_years 1970 n + sum (take k (month_lengths y)) + month_part.1)
              (sym year_is) (omega (arith, days, rest))),
      )

-- The timestamp is the text of a date of the calendar and a time of the day, and the seconds from
-- 1970 to that time are those of the clock.
pub timestamp_utc-IsCivil :
    (now : ℕ) → (t : Tm) × (timestamp_utc now ≡ format_time t) × IsCivil t × (seconds_of t ≡ now)
unfolding timestamp_utc
timestamp_utc-IsCivil now = (gmtime now, refl, (gmtime-IsCivil now).0, (gmtime-IsCivil now).1)
