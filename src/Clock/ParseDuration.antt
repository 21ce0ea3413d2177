-- ===== src/Clock/ParseDuration.antt =====
-- Go's time.ParseDuration. Its only step in floating point, what a decimal fraction of a unit is in
-- nanoseconds, is the parameter `fraction`. `none` is any error. The loop over the terms has the
-- length of the text as its fuel, which is enough: each term is at least one character.
pub mod Laws
use hermes_cluster.Base.{
  ℕ, zero, suc, ◌+◌, ◌-◌, ◌*◌, ◌/◌, ◌%◌, String, Bool, true, false, not, ◌&&◌, ◌||◌, Option, none,
  some, List, [], ◌∷◌, ltb, eqb, if◌then◌else◌,
}
use hermes_cluster.Base.Int.{ℤ, pos, ◌-ℤ◌, half_range, full_range}
use hermes_cluster.Base.Text.{codes, length, same_text}
use hermes_cluster.Base.Decimal.{is_digit}
use hermes_cluster.Clock.{Duration}

-- leadingInt: the digits at the front, as a number of at most 2^63
unfoldable pub leading_int : ℕ → List ℕ → Option (ℕ × List ℕ)
leading_int x [] = some (x, [])
leading_int x (c ∷ s) =
    let y = x * 10 + (c - b'0') in
    let rest = leading_int y s in
    if not (is_digit c)
    then some (x, c ∷ s)
    else if ltb (half_range / 10) x || ltb half_range y
    then none
    else rest

-- leadingFraction: the digits at the front, as a number and the power of ten to divide it by;
-- digits past the range are passed over
unfoldable pub leading_fraction : Bool → ℕ → ℕ → List ℕ → ℕ × ℕ × List ℕ
leading_fraction over x scale [] = (x, scale, [])
leading_fraction over x scale (c ∷ s) =
    let y = x * 10 + (c - b'0') in
    let past = over || ltb ((half_range - 1) / 10) x || ltb half_range y in
    let skipped = leading_fraction true x scale s in
    let taken = leading_fraction false y (scale * 10) s in
    if not (is_digit c) then (x, scale, c ∷ s) else if past then skipped else taken

-- the characters of a unit: up to the next digit or point
unfoldable pub unit_name : List ℕ → List ℕ × List ℕ
unit_name [] = ([], [])
unit_name (c ∷ s) =
    let (name, rest) = unit_name s in
    if eqb c b'.' || is_digit c then ([], c ∷ s) else (c ∷ name, rest)

-- unitMap, in nanoseconds
unfoldable pub unit_of : List ℕ → Option ℕ
unit_of name =
    if same_text name (codes "ns")
    then some 1
    else if same_text name (codes "us")
        || same_text name (181 ∷ b's' ∷ [])
        || same_text name (956 ∷ b's' ∷ [])
    then some 1000
    else if same_text name (codes "ms")
    then some 1000000
    else if same_text name (codes "s")
    then some 1000000000
    else if same_text name (codes "m")
    then some 60000000000
    else if same_text name (codes "h")
    then some 3600000000000
    else none

-- the fraction after a point, if there is a point
unfoldable pub point : List ℕ → ℕ × ℕ × List ℕ
unfolding leading_fraction
point [] = (0, 1, [])
point (c ∷ s) = if eqb c b'.' then leading_fraction false 0 1 s else (0, 1, c ∷ s)

-- no digit is at the front of the text, nor a point with a digit after it
abbrev pub lacks_number : List ℕ → Bool
lacks_number [] = true
lacks_number (c ∷ []) = not (is_digit c)
lacks_number (c ∷ d ∷ s) = not (is_digit c) && not (eqb c b'.' && is_digit d)

-- the sum with its sign, where an int64 holds it
abbrev pub signed : Bool → Option ℕ → Option Duration
signed negative none = none
signed negative (some d) =
    if negative
    then some (pos 0 -ℤ pos d)
    else if ltb (half_range - 1) d
    then none
    else some (pos d)

module _ (fraction : ℕ → ℕ → ℕ → ℕ) where
  -- a number of units with its fraction, in nanoseconds
  unfoldable pub amount : ℕ → ℕ → ℕ → ℕ → Option ℕ
  amount v f scale unit =
      let whole = v * unit in
      let more = whole + fraction f scale unit in
      if ltb (half_range / unit) v
      then none
      else if eqb f 0
      then some whole
      else if ltb half_range more
      then none
      else some more

  -- one term: its value and what follows it
  unfoldable pub term : List ℕ → Option (ℕ × List ℕ)
  unfolding leading_int point unit_name unit_of amount
  term s = if lacks_number s then none else elim (leading_int 0 s) [
    | none ↦ none
    | some (v, s₁) ↦
        let (f, scale, s₂) = point s₁ in
        let (name, s₃) = unit_name s₂ in
        elim (unit_of name) [
          | none ↦ none
          | some unit ↦ elim (amount v f scale unit) [ none ↦ none | some x ↦ some (x, s₃) ]
        ]
  ]

  -- the loop over the terms, on the sum so far, a uint64
  unfoldable pub terms : ℕ → ℕ → List ℕ → Option ℕ
  unfolding term
  terms fuel d [] = some d
  terms zero d (c ∷ s) = none
  terms (suc fuel) d (c ∷ s) = elim (term (c ∷ s)) [
    | none ↦ none
    | some (v, rest) ↦
        let sum = (d + v) % full_range in
        let later = terms fuel sum rest in if ltb half_range sum then none else later
  ]

  -- what follows the sign
  unfoldable pub parse_unsigned : Bool → List ℕ → Option Duration
  unfolding terms
  parse_unsigned negative [] = none
  parse_unsigned negative (c ∷ s) =
      if same_text (c ∷ s) (codes "0")
      then some (pos 0)
      else signed negative (terms (length (c ∷ s)) 0 (c ∷ s))

  unfoldable pub parse_codes : List ℕ → Option Duration
  unfolding parse_unsigned
  parse_codes [] = none
  parse_codes (c ∷ s) =
      if eqb c b'-' || eqb c b'+'
      then parse_unsigned (eqb c b'-') s
      else parse_unsigned false (c ∷ s)

  -- time.ParseDuration
  unfoldable pub parse_duration : String → Option Duration
  unfolding parse_codes
  parse_duration text = parse_codes (codes text)
