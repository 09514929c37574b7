-- ===== src/Audit/Timestamp.antt =====
-- timestamp_utc of audit.c: gmtime_r and strftime of the C library, at a time since 1970.
pub mod Civil
use anything_tool.Base.{
  ℕ, zero, suc, ◌+◌, ◌-◌, ◌*◌, ◌/◌, ◌%◌, Bool, not, ◌&&◌, ◌||◌, List, [], ◌∷◌, ◌++◌, ltb, ◌==◌,
  if◌then◌else◌,
}
use anything_tool.Text.{Bytes, codes}
use anything_tool.Text.Decimal.{decimal}

-- struct tm, with the year and the month as they are written.
pub record Tm : Type 0 where
  pub year : ℕ
  pub month : ℕ
  pub day : ℕ
  pub hour : ℕ
  pub minute : ℕ
  pub second : ℕ

abbrev pub is_leap : ℕ → Bool
is_leap y = y % 4 == 0 && (not (y % 100 == 0) || y % 400 == 0)

abbrev pub days_in_year : ℕ → ℕ
days_in_year y = if is_leap y then 366 else 365

abbrev pub month_lengths : ℕ → List ℕ
month_lengths y =
    31 ∷ (if is_leap y then 29 else 28) ∷ 31 ∷ 30 ∷ 31 ∷ 30 ∷ 31 ∷ 31 ∷ 30 ∷ 31 ∷ 30 ∷ 31 ∷ []

-- The year, and the day in it, of a day behind the first of year y.
unfoldable pub split_year : ℕ → ℕ → ℕ → ℕ × ℕ
split_year zero y d = (y, d)
split_year (suc fuel) y d =
    let rest = split_year fuel (y + 1) (d - days_in_year y) in
    if ltb d (days_in_year y) then (y, d) else rest

-- The month, and the day in it, of a day of the year.
unfoldable pub split_month : ℕ → List ℕ → ℕ → ℕ × ℕ
split_month m [] d = (m, d)
split_month m (n ∷ ns) d =
    let rest = split_month (m + 1) ns (d - n) in if ltb d n then (m, d) else rest

-- A year has 365 days or more, so the days by 365 are years enough.
unfoldable pub gmtime : ℕ → Tm
unfolding split_year split_month
gmtime now =
    let days = now / 86400 in
    let second = now % 86400 in
    let (year, day_of_year) = split_year (days / 365 + 1) 1970 days in
    let (month, day) = split_month 1 (month_lengths year) day_of_year in
    record {
      year = year;
      month = month;
      day = day + 1;
      hour = second / 3600;
      minute = second / 60 % 60;
      second = second % 60;
    }

-- %m, %d, %H, %M and %S
unfoldable pub two_digits : ℕ → Bytes
two_digits n = if ltb n 10 then b'0' ∷ decimal n else decimal n

-- strftime with %Y-%m-%dT%H:%M:%SZ; the text of a year below 10000 has 20 bytes of the buffer's 32.
unfoldable pub format_time : Tm → Bytes
unfolding two_digits
format_time t =
    decimal t.year
    ++ (b'-'
        ∷ (two_digits t.month
            ++ (b'-'
                ∷ (two_digits t.day
                    ++ (b'T'
                        ∷ (two_digits t.hour
                            ++ (b':'
                                ∷ (two_digits t.minute
                                    ++ (b':' ∷ (two_digits t.second ++ b'Z' ∷ []))))))))))

unfoldable pub timestamp_utc : ℕ → Bytes
unfolding gmtime format_time
timestamp_utc now = format_time (gmtime now)
