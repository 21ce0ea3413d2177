-- ===== src/Clock/Calendar.antt =====
-- Dates of the proleptic Gregorian calendar as Go's `time` package counts them: the day numbers from
-- January 1 of year 1, and the year, month and day of a day number.
use hermes_cluster.Base.{
  ℕ, zero, suc, ◌+◌, ◌-◌, ◌*◌, ◌/◌, ◌%◌, ◌<◌, ◌≡◌, Bool, not, ◌&&◌, ◌||◌, List, [], ◌∷◌, arith, ltb,
  eqb, if◌then◌else◌,
}
use hermes_cluster.Base.Text.{length, get_or}

-- isLeap
abbrev pub is_leap : ℕ → Bool
is_leap y = eqb (y % 4) 0 && (not (eqb (y % 100) 0) || eqb (y % 400) 0)

-- the lengths of the twelve months
abbrev pub month_lengths : Bool → List ℕ
month_lengths leap =
    31 ∷ (if leap then 29 else 28) ∷ 31 ∷ 30 ∷ 31 ∷ 30 ∷ 31 ∷ 31 ∷ 30 ∷ 31 ∷ 30 ∷ 31 ∷ []

abbrev pub days_in_year : ℕ → ℕ
days_in_year y = if is_leap y then 366 else 365

-- the days before year `p + 1`
unfoldable pub days_before_year : ℕ → ℕ
days_before_year p = p * 365 + p / 4 - p / 100 + p / 400

-- the days of the first `i` lengths
unfoldable pub days_before_month : List ℕ → ℕ → ℕ
days_before_month [] i = 0
days_before_month (l ∷ ls) zero = 0
days_before_month (l ∷ ls) (suc i) = l + days_before_month ls i

-- the month, from 0, and the day in it, from 0, of a day of the year
unfoldable pub find_month : List ℕ → ℕ → ℕ × ℕ
find_month [] n = (0, n)
find_month (l ∷ ls) n = let (i, d) = find_month ls (n - l) in if ltb n l then (0, n) else (suc i, d)

-- The blocks of 400, 100, 4 and 1 years before a day number, and what is left: the last block of
-- 100 years in 400, and of a year in 4, has a day more.
unfoldable pub year_and_day : ℕ → ℕ × ℕ
year_and_day n =
    let a = n % 146097 in
    let hundreds = if ltb (a / 36524) 4 then a / 36524 else 3 in
    let b = a - hundreds * 36524 in
    let c = b % 1461 in
    let ones = if ltb (c / 365) 4 then c / 365 else 3 in
    (n / 146097 * 400 + hundreds * 100 + b / 1461 * 4 + ones, c - ones * 365)

-- The year, less one, and the day in it make up the day number again.
pub year_and_day_lem :
    (n : ℕ)
    → (days_before_year (year_and_day n).0 + (year_and_day n).1 ≡ n)
      × ((year_and_day n).1 < days_in_year (suc (year_and_day n).0))
unfolding year_and_day days_before_year
year_and_day_lem n = ground arith

abbrev pub sum : List ℕ → ℕ
sum [] = 0
sum (l ∷ ls) = l + sum ls

-- A day of the year falls in a month, and the days before that month and in it make it up again.
pub find_month_lem :
    (ls : List ℕ) (n : ℕ)
    → n < sum ls
    → (days_before_month ls (find_month ls n).0 + (find_month ls n).1 ≡ n)
      × ((find_month ls n).1 < get_or ls (find_month ls n).0 0)
      × ((find_month ls n).0 < length ls)
unfolding find_month days_before_month
find_month_lem [] n h = absurd (omega arith)
find_month_lem (l ∷ ls) n h = let rest = find_month_lem ls (n - l) in ground arith

pub sum-month_lengths : (y : ℕ) → sum (month_lengths (is_leap y)) ≡ days_in_year y
sum-month_lengths y = ground arith
