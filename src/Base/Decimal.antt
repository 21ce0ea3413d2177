-- ===== src/Base/Decimal.antt =====
-- strconv.FormatInt and strconv.ParseInt in base 10 for int64. The fuel of the printing loop is the
-- number of digits at most written; 20 is enough for every 64-bit number.
pub mod RoundTrip
use hermes_cluster.Base.{
  ℕ, zero, suc, ◌+◌, ◌-◌, ◌*◌, ◌/◌, ◌%◌, String, Bool, Option, none, some, List, [], ◌∷◌, ltb, leb,
  eqb, if◌then◌else◌,
}
use hermes_cluster.Base.Int.{ℤ, pos, negsuc, half_range}
use hermes_cluster.Base.Text.{codes, between, get_or, ◌<>◌}

abbrev digit_table : List String
digit_table = "0" ∷ "1" ∷ "2" ∷ "3" ∷ "4" ∷ "5" ∷ "6" ∷ "7" ∷ "8" ∷ "9" ∷ []

unfoldable pub digit_text : ℕ → String
digit_text d = get_or digit_table d ""

unfoldable pub digits_text : ℕ → ℕ → String
unfolding digit_text
digits_text zero n = ""
digits_text (suc fuel) n =
    let more = digits_text fuel (n / 10) <> digit_text (n % 10) in
    if ltb n 10 then digit_text n else more

unfoldable pub format_int : ℤ → String
unfolding digits_text
format_int (pos n) = digits_text 20 n
format_int (negsuc n) = "-" <> digits_text 20 (suc n)

abbrev pub is_digit : ℕ → Bool
is_digit c = between b'0' b'9' c

unfoldable pub parse_digits : ℕ → List ℕ → Option ℕ
parse_digits n [] = some n
parse_digits n (c ∷ s) =
    let more = parse_digits (n * 10 + (c - b'0')) s in if is_digit c then more else none

-- at least one digit, and nothing else
unfoldable pub parse_uint : List ℕ → Option ℕ
unfolding parse_digits
parse_uint [] = none
parse_uint (c ∷ s) = parse_digits 0 (c ∷ s)

abbrev positive : Option ℕ → Option ℤ
positive none = none
positive (some n) = if ltb n half_range then some (pos n) else none

abbrev minus : ℕ → ℤ
minus zero = pos 0
minus (suc n) = negsuc n

abbrev negative : Option ℕ → Option ℤ
negative none = none
negative (some n) = if leb n half_range then some (minus n) else none

parse_signed : List ℕ → Option ℤ
unfolding parse_uint
parse_signed [] = none
parse_signed (c ∷ s) =
    if eqb c b'+'
    then positive (parse_uint s)
    else if eqb c b'-'
    then negative (parse_uint s)
    else positive (parse_uint (c ∷ s))

-- `none` is any error of ParseInt: no digits, another character, or out of range
unfoldable pub parse_int : String → Option ℤ
unfolding parse_signed
parse_int s = parse_signed (codes s)
