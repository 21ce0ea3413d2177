-- ===== src/Clock/Rfc3339.antt =====
-- Go's time.Format and time.Parse with the layout time.RFC3339, "2006-01-02T15:04:05Z07:00", of UTC
-- times. `parse` follows the rules of the layout, and gives `none` for every error.
pub mod RoundTrip
use hermes_cluster.Base.{
  ℕ, zero, suc, ◌+◌, ◌-◌, ◌*◌, ◌/◌, ◌%◌, String, Bool, true, false, not, ◌&&◌, ◌||◌, Option, none,
  some, List, [], ◌∷◌, ltb, leb, eqb, if◌then◌else◌,
}
use hermes_cluster.Base.Int.{ℤ, pos, negsuc, ◌-ℤ◌, ◌*ℤ◌}
use hermes_cluster.Base.Text.{codes, ◌<>◌, length, get_or}
use hermes_cluster.Base.Decimal.{digit_text, digits_text, is_digit}
use hermes_cluster.Clock.{Time, nanoseconds_per_second}
use hermes_cluster.Clock.Calendar.{
  is_leap, month_lengths, days_before_year, days_before_month, find_month, year_and_day,
}

-- the days of 400 years
abbrev pub days_per_cycle : ℕ
days_per_cycle = 146097

unfoldable pub two_digits : ℕ → String
two_digits n = digit_text (n / 10) <> digit_text (n % 10)

-- appendInt with a width of 4
unfoldable pub four_digits : ℕ → String
unfolding digits_text two_digits
four_digits n =
    if ltb n 10000 then two_digits (n / 100) <> two_digits (n % 100) else digits_text 20 n

-- Year `y - shift`, where the shift is a number of years that makes `y` a natural number.
unfoldable pub year_text : ℕ → ℕ → String
unfolding four_digits
year_text shift y = if ltb y shift then "-" <> four_digits (shift - y) else four_digits (y - shift)

-- a year, a month, a day, an hour, a minute and a second as the layout has them
unfoldable pub layout : String → ℕ → ℕ → ℕ → ℕ → ℕ → String
layout year month day hour minute second =
    year
    <> "-"
    <> two_digits month
    <> "-"
    <> two_digits day
    <> "T"
    <> two_digits hour
    <> ":"
    <> two_digits minute
    <> ":"
    <> two_digits second
    <> "Z"

-- The text of the moment that lies `secs` whole seconds after the beginning of year `1 - shift`.
unfoldable pub format_from : ℕ → ℕ → String
unfolding year_text year_and_day find_month layout
format_from shift secs =
    let (p, n) = year_and_day (secs / 86400) in
    let (m, d) = find_month (month_lengths (is_leap (suc p))) n in
    let r = secs % 86400 in
    layout (year_text shift (suc p)) (suc m) (suc d) (r / 3600) (r % 3600 / 60) (r % 60)

abbrev pub seconds_per_cycle : ℕ
seconds_per_cycle = days_per_cycle * 86400

-- t.UTC().Format(time.RFC3339)
unfoldable pub format : Time → String
unfolding format_from
format (pos n) = format_from 0 (n / nanoseconds_per_second)
format (negsuc n) =
    let k = suc (n / nanoseconds_per_second) in
    let q = suc (k / seconds_per_cycle) in format_from (q * 400) (q * seconds_per_cycle - k)

infixl 5 ◌>>=◌
abbrev ◌>>=◌ {ℓ ℓ'} : {A : Type ℓ} {B : Type ℓ'} → Option A → (A → Option B) → Option B
none >>= f = none
some x >>= f = f x

-- A step of `parse` reads a value off the front of the text.
abbrev pub Step : Type 0 → Type 0
Step A = List ℕ → Option (A × List ℕ)

-- exactly `k` digits, as a number
unfoldable pub get_digits : ℕ → ℕ → Step ℕ
get_digits zero n s = some (n, s)
get_digits (suc k) n [] = none
get_digits (suc k) n (c ∷ s) =
    let rest = get_digits k (n * 10 + (c - b'0')) s in if is_digit c then rest else none

-- getnum where one digit is enough
unfoldable pub get_hour : Step ℕ
get_hour [] = none
get_hour (c ∷ []) = if is_digit c then some (c - b'0', []) else none
get_hour (c ∷ d ∷ s) =
    if not (is_digit c)
    then none
    else if is_digit d
    then some ((c - b'0') * 10 + (d - b'0'), s)
    else some (c - b'0', d ∷ s)

-- a character of the layout
unfoldable pub expect : ℕ → Step Unit
expect c [] = none
expect c (d ∷ s) = if eqb c d then some (tt, s) else none

-- the digits of a fraction: the first nine count, the rest is passed over
unfoldable pub fraction_digits : ℕ → ℕ → List ℕ → ℕ × List ℕ
fraction_digits weight n [] = (n, [])
fraction_digits weight n (c ∷ s) =
    let rest = fraction_digits (weight / 10) (n + weight * (c - b'0')) s in
    if is_digit c then rest else (n, c ∷ s)

-- the fraction of a second that may follow it, in nanoseconds
unfoldable pub get_fraction : List ℕ → ℕ × List ℕ
unfolding fraction_digits
get_fraction [] = (0, [])
get_fraction (c ∷ []) = (0, c ∷ [])
get_fraction (c ∷ d ∷ s) =
    if (eqb c b'.' || eqb c b',') && is_digit d
    then fraction_digits 100000000 0 (d ∷ s)
    else (0, c ∷ d ∷ s)

-- the sign of an offset: `some true` for +
unfoldable pub get_sign : Step Bool
get_sign [] = none
get_sign (c ∷ s) =
    if eqb c b'+' then some (true, s) else if eqb c b'-' then some (false, s) else none

abbrev pub signed_seconds : Bool → ℕ → ℤ
signed_seconds true n = pos n
signed_seconds false n = pos 0 -ℤ pos n

-- "Z", or an offset of at most 24 hours and 60 minutes, in seconds
unfoldable pub get_offset : Step ℤ
unfolding get_sign get_digits expect
get_offset s = do
  (ahead, s₁) ← get_sign s
  (hours, s₂) ← get_digits 2 0 s₁
  (_, s₃) ← expect b':' s₂
  (minutes, s₄) ← get_digits 2 0 s₃
  if leb hours 24 && leb minutes 60
      then some (signed_seconds ahead ((hours * 60 + minutes) * 60), s₄)
      else none

unfoldable pub get_zone : Step ℤ
unfolding get_offset expect
get_zone s = elim (expect b'Z' s) [ some (_, rest) ↦ some (pos 0, rest) | none ↦ get_offset s ]

-- The time of day, in seconds and nanoseconds.
unfoldable pub get_clock : Step (ℕ × ℕ)
unfolding get_hour expect get_digits get_fraction
get_clock s = do
  (hour, s₁) ← get_hour s
  (_, s₂) ← expect b':' s₁
  (minute, s₃) ← get_digits 2 0 s₂
  (_, s₄) ← expect b':' s₃
  (second, s₅) ← get_digits 2 0 s₄
  if ltb hour 24 && ltb minute 60 && ltb second 60
      then some ((hour * 3600 + minute * 60 + second, (get_fraction s₅).0), (get_fraction s₅).1)
      else none

-- The year and the month and day.
unfoldable pub get_date : Step (ℕ × ℕ × ℕ)
unfolding get_digits expect
get_date s = do
  (year, s₁) ← get_digits 4 0 s
  (_, s₂) ← expect b'-' s₁
  (month, s₃) ← get_digits 2 0 s₂
  (_, s₄) ← expect b'-' s₃
  (day, s₅) ← get_digits 2 0 s₄
  some ((year, month, day), s₅)

-- the days from the beginning of year -399, and whether there is such a date
unfoldable pub date_days : ℕ × ℕ × ℕ → Option ℕ
unfolding days_before_year days_before_month
date_days (year, month, day) =
    let lengths = month_lengths (is_leap year) in
    if leb 1 month && leb month 12 && leb 1 day && leb day (get_or lengths (month - 1) 0)
    then some (days_before_year (year + 399) + days_before_month lengths (month - 1) + (day - 1))
    else none

abbrev pub at_end : List ℕ → Option {0} Unit
at_end [] = some tt
at_end (c ∷ s) = none

-- time.Date, from the days since year -399 began, a time of day and its offset
abbrev pub moment : ℕ → ℕ → ℕ → ℤ → Time
moment days seconds nanoseconds offset =
    pos ((days * 86400 + seconds) * nanoseconds_per_second + nanoseconds)
    -ℤ pos (seconds_per_cycle * nanoseconds_per_second)
    -ℤ offset *ℤ pos nanoseconds_per_second

-- a date and a time of day, and what follows them
unfoldable pub get_moment : Step (ℕ × ℕ × ℕ)
unfolding get_date date_days expect get_clock
get_moment s = do
  (date, s₁) ← get_date s
  (_, s₂) ← expect b'T' s₁
  ((seconds, nanoseconds), s₃) ← get_clock s₂
  days ← date_days date
  some ((days, seconds, nanoseconds), s₃)

-- time.Parse(time.RFC3339, text)
unfoldable pub parse : String → Option Time
unfolding get_moment get_zone
parse text = do
  ((days, seconds, nanoseconds), s) ← get_moment (codes text)
  (offset, rest) ← get_zone s
  _ ← at_end rest
  some (moment days seconds nanoseconds offset)

-- time.Parse("2006-01-02T15:04:05", text), which takes the time to be in UTC
unfoldable pub parse_naive : String → Option Time
unfolding get_moment
parse_naive text = do
  ((days, seconds, nanoseconds), rest) ← get_moment (codes text)
  _ ← at_end rest
  some (moment days seconds nanoseconds (pos 0))
