-- ===== src/Clock/Rfc3339/RoundTrip.antt =====
-- A time that is printed is read back, to the second (the texts of RFC 3339 times).
use hermes_cluster.Base.{
  ℕ, zero, suc, ◌+◌, ◌-◌, ◌*◌, ◌/◌, ◌%◌, ◌<◌, ◌≤◌, ◌≡◌, refl, ap, String, Bool, true, false, some,
  List, [], ◌∷◌, ◌++◌, arith, ltb, leb,
}
use hermes_cluster.Base.Int.{pos, ◌-ℤ◌, ◌*ℤ◌}
use hermes_cluster.Base.Text.{codes, codes-append, length, get_or, all}
use hermes_cluster.Base.Decimal.{digit_text}
use hermes_cluster.Base.Decimal.RoundTrip.{digit_codes}
use hermes_cluster.Clock.{unix_to_internal, nanoseconds_per_second}
use hermes_cluster.Clock.Calendar.{
  is_leap, month_lengths, days_before_year, find_month, year_and_day, year_and_day_lem,
  find_month_lem, sum, sum-month_lengths,
}
use hermes_cluster.Clock.Rfc3339.{
  two_digits, four_digits, year_text, layout, format_from, format, get_digits, get_hour, expect,
  get_fraction, get_zone, get_clock, get_date, date_days, get_moment, moment, parse,
}

-- the seconds of the years 1 to 9999
abbrev pub seconds_in_years : ℕ
seconds_in_years = 315537897600

epoch_text : format (pos (unix_to_internal * nanoseconds_per_second)) ≡ "1970-01-01T00:00:00Z"
unfolding format layout year_text two_digits four_digits format_from year_and_day find_month
    digit_text
epoch_text = refl

codes-two_digits : (n : ℕ) → n < 100 → codes (two_digits n) ≡ (b'0' + n / 10) ∷ (b'0' + n % 10) ∷ []
unfolding two_digits
codes-two_digits n h =
    rw (codes-append, digit_codes (n / 10) (omega arith), digit_codes (n % 10) (omega arith)) refl

get_digits-two :
    (k m n : ℕ) (s : List ℕ)
    → n < 100
    → get_digits (suc (suc k)) m (codes (two_digits n) ++ s) ≡ get_digits k (m * 100 + n) s
unfolding get_digits
get_digits-two k m n s h =
    let same : (m * 10 + n / 10) * 10 + n % 10 ≡ m * 100 + n = omega arith in
    rw (codes-two_digits n h) (ground arith)

get_digits-two_digits :
    (n : ℕ) (s : List ℕ) → n < 100 → get_digits 2 0 (codes (two_digits n) ++ s) ≡ some (n, s)
get_digits-two_digits n s h =
    let same : 0 * 100 + n ≡ n = omega arith in
    rw (get_digits-two 0 0 n s h, same) (unfold get_digits in refl)

append_assoc : (s t u : List ℕ) → (s ++ t) ++ u ≡ s ++ (t ++ u)
append_assoc [] t u = refl
append_assoc (c ∷ s) t u = ap (λ x. c ∷ x) (append_assoc s t u)

get_digits-four_digits :
    (n : ℕ) (s : List ℕ) → n < 10000 → get_digits 4 0 (codes (four_digits n) ++ s) ≡ some (n, s)
unfolding four_digits
get_digits-four_digits n s h =
    let small : ltb n 10000 ≡ true = ground arith in
    let whole : (0 * 100 + n / 100) * 100 + n % 100 ≡ n = omega arith in
    rw
      (
        small,
        codes-append,
        append_assoc,
        get_digits-two 2 0 (n / 100) (codes (two_digits (n % 100)) ++ s) (omega arith),
        get_digits-two 0 (0 * 100 + n / 100) (n % 100) s (omega arith),
        whole,
      )
      (unfold get_digits in refl)

get_hour-two_digits :
    (n : ℕ) (s : List ℕ) → n < 100 → get_hour (codes (two_digits n) ++ s) ≡ some (n, s)
unfolding get_hour
get_hour-two_digits n s h =
    let same : n / 10 * 10 + n % 10 ≡ n = omega arith in rw (codes-two_digits n h) (ground arith)

get_date-printed :
    (y m d : ℕ) (s : List ℕ)
    → y < 10000
    → m < 100
    → d < 100
    → get_date (
        codes (four_digits y)
        ++ (b'-' ∷ (codes (two_digits m) ++ (b'-' ∷ (codes (two_digits d) ++ s)))))
      ≡ some ((y, m, d), s)
unfolding get_date expect
get_date-printed y m d s hy hm hd =
    rw
      (
        get_digits-four_digits y
            (b'-' ∷ (codes (two_digits m) ++ (b'-' ∷ (codes (two_digits d) ++ s)))) hy,
        get_digits-two_digits m (b'-' ∷ (codes (two_digits d) ++ s)) hm,
        get_digits-two_digits d s hd,
      )
      refl

get_clock-printed :
    (h m s : ℕ)
    → h < 24
    → m < 60
    → s < 60
    → get_clock (
        codes (two_digits h)
        ++ (b':' ∷ (codes (two_digits m) ++ (b':' ∷ (codes (two_digits s) ++ (b'Z' ∷ []))))))
      ≡ some ((h * 3600 + m * 60 + s, 0), b'Z' ∷ [])
unfolding get_clock expect get_fraction
get_clock-printed h m s hh hm hs =
    rw
      (
        get_hour-two_digits h
            (b':' ∷ (codes (two_digits m) ++ (b':' ∷ (codes (two_digits s) ++ (b'Z' ∷ [])))))
            (omega arith),
        get_digits-two_digits m (b':' ∷ (codes (two_digits s) ++ (b'Z' ∷ []))) (omega arith),
        get_digits-two_digits s (b'Z' ∷ []) (omega arith),
      )
      (ground arith)

cycle_later : (p : ℕ) → days_before_year (p + 400) ≡ days_before_year p + 146097
unfolding days_before_year
cycle_later p = omega arith

date_days-found :
    (p n : ℕ)
    → n < sum (month_lengths (is_leap (suc p)))
    → let month = find_month (month_lengths (is_leap (suc p))) n in
      date_days (suc p, suc month.0, suc month.1) ≡ some (days_before_year p + n + 146097)
unfolding date_days
date_days-found p n h =
    let ls = month_lengths (is_leap (suc p)) in
    let found = find_month_lem ls n h in
    let year : suc p + 399 ≡ p + 400 = omega arith in
    let month : suc (find_month ls n).0 - 1 ≡ (find_month ls n).0 = omega arith in
    rw (year, month, cycle_later p) (ground (arith, found))

year_in_range : (p n : ℕ) → days_before_year p + n < 3652059 → p < 9999
unfolding days_before_year
year_in_range p n h = omega arith

year_text_lem : (y : ℕ) → year_text 0 y ≡ four_digits y
unfolding year_text
year_text_lem y = let same : y - 0 ≡ y = omega arith in rw same (ground arith)

codes-layout :
    (year : String) (m d h i s : ℕ)
    → codes (layout year m d h i s)
      ≡ codes year
        ++ (b'-'
            ∷ (codes (two_digits m)
                ++ (b'-'
                    ∷ (codes (two_digits d)
                        ++ (b'T'
                            ∷ (codes (two_digits h)
                                ++ (b':'
                                    ∷ (codes (two_digits i)
                                        ++ (b':' ∷ (codes (two_digits s) ++ (b'Z' ∷ [])))))))))))
unfolding layout
codes-layout year m d h i s = simp codes-append refl

parse-layout :
    (y m d h i s days : ℕ)
    → y < 10000
    → m < 100
    → d < 100
    → h < 24
    → i < 60
    → s < 60
    → date_days (y, m, d) ≡ some days
    → parse (layout (four_digits y) m d h i s)
      ≡ some (moment days (h * 3600 + i * 60 + s) 0 (pos 0))
unfolding parse get_moment get_zone expect
parse-layout y m d h i s days hy hm hd hh hi hs date =
    let clock =
      codes (two_digits h)
      ++ (b':' ∷ (codes (two_digits i) ++ (b':' ∷ (codes (two_digits s) ++ (b'Z' ∷ []))))) in
    rw
      (
        codes-layout (four_digits y) m d h i s,
        get_date-printed y m d (b'T' ∷ clock) hy hm hd,
        get_clock-printed h i s hh hi hs,
        date,
      )
      refl

moment_lem :
    (day seconds : ℕ)
    → moment (day + 146097) seconds 0 (pos 0)
      ≡ pos ((day * 86400 + seconds) * nanoseconds_per_second)
unfolding ◌-ℤ◌ ◌*ℤ◌
moment_lem day seconds = ground arith

get_or-le : (ls : List ℕ) (top i : ℕ) → all (λ l. leb l top) ls ≡ true → get_or ls i 0 ≤ top
get_or-le [] top i h = omega arith
get_or-le (l ∷ ls) top zero h = ground arith
get_or-le (l ∷ ls) top (suc i) h = get_or-le ls top i (ground arith)

months_short : (leap : Bool) → all (λ l. leb l 31) (month_lengths leap) ≡ true
months_short true = refl
months_short false = refl

months_twelve : (leap : Bool) → length (month_lengths leap) ≡ 12
months_twelve leap = refl

-- the month and the day that a day of the year is printed with
month_fits :
    (leap : Bool) (n : ℕ)
    → n < sum (month_lengths leap)
    → let month = find_month (month_lengths leap) n in (suc month.0 < 100) × (suc month.1 < 100)
month_fits leap n h =
    let ls = month_lengths leap in
    let found = find_month_lem ls n h in
    omega
      (arith, found, months_twelve leap, get_or-le ls 31 (find_month ls n).0 (months_short leap))

parse-format_from :
    (secs : ℕ)
    → secs < seconds_in_years
    → parse (format_from 0 secs) ≡ some (pos (secs * nanoseconds_per_second))
unfolding format_from
parse-format_from secs h =
    let (p, k) = year_and_day (secs / 86400) in
    let (whole, inside) = year_and_day_lem (secs / 86400) in
    let leap = is_leap (suc p) in
    let fits : k < sum (month_lengths leap) = rw (sum-month_lengths (suc p)) inside in
    let year : p < 9999 = year_in_range p k (omega arith) in
    let (month, day) = find_month (month_lengths leap) k in
    let short = month_fits leap k fits in
    let r = secs % 86400 in
    let clock : r / 3600 * 3600 + r % 3600 / 60 * 60 + r % 60 ≡ r = omega arith in
    let same : (days_before_year p + k) * 86400 + r ≡ secs = omega arith in
    rw
      (
        year_text_lem (suc p),
        parse-layout (suc p) (suc month) (suc day) (r / 3600) (r % 3600 / 60) (r % 60)
            (days_before_year p + k + 146097) (omega arith) short.0 short.1 (omega arith)
            (omega arith) (omega arith) (date_days-found p k fits),
        clock,
        moment_lem (days_before_year p + k) r,
        same,
      )
      refl

-- A time of the years 1 to 9999 that is printed and read again is the same, to the second below.
pub parse-format :
    (n : ℕ)
    → n < seconds_in_years * nanoseconds_per_second
    → parse (format (pos n)) ≡ some (pos (n / nanoseconds_per_second * nanoseconds_per_second))
unfolding format
parse-format n h = parse-format_from (n / nanoseconds_per_second) (omega arith)
