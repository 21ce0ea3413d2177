-- ===== src/Base/Decimal/RoundTrip.antt =====
-- What `format_int` writes, `parse_int` reads back.
use native.Mathlib.Nat.{pow-suc}
use hermes_cluster.Base.{
  ℕ, zero, suc, ◌+◌, ◌-◌, ◌*◌, ◌/◌, ◌%◌, ◌^◌, ◌<◌, ◌≤◌, ◌≡◌, refl, ◌∙◌, ap, some, List, [], ◌∷◌,
  ◌++◌, arith, ltb, Bool-cases, inl, inr,
}
use hermes_cluster.Base.Int.{ℤ, pos, negsuc, half_range, IsInt64}
use hermes_cluster.Base.Text.{codes, codes-append}
use hermes_cluster.Base.Decimal.{
  digit_text, digits_text, format_int, parse_digits, parse_uint, parse_signed, parse_int,
}

pub digit_codes : (d : ℕ) → d < 10 → codes (digit_text d) ≡ (b'0' + d) ∷ []
unfolding digit_text
digit_codes zero h = refl
digit_codes (suc zero) h = refl
digit_codes (suc (suc zero)) h = refl
digit_codes (suc (suc (suc zero))) h = refl
digit_codes (suc (suc (suc (suc zero)))) h = refl
digit_codes (suc (suc (suc (suc (suc zero))))) h = refl
digit_codes (suc (suc (suc (suc (suc (suc zero)))))) h = refl
digit_codes (suc (suc (suc (suc (suc (suc (suc zero))))))) h = refl
digit_codes (suc (suc (suc (suc (suc (suc (suc (suc zero)))))))) h = refl
digit_codes (suc (suc (suc (suc (suc (suc (suc (suc (suc zero))))))))) h = refl
digit_codes (suc (suc (suc (suc (suc (suc (suc (suc (suc (suc d)))))))))) h = absurd (omega arith)

parse_digits-append :
    (n : ℕ) (s : List ℕ) (m d : ℕ)
    → d < 10
    → parse_digits n s ≡ some m
    → parse_digits n (s ++ (b'0' + d) ∷ []) ≡ some (m * 10 + d)
unfolding parse_digits
parse_digits-append n [] m d h e = ground arith
parse_digits-append n (c ∷ s) m d h e =
    ground (arith, parse_digits-append (n * 10 + (c - b'0')) s m d h)

digits_text-suc :
    (fuel n : ℕ)
    → 10 ≤ n
    → codes (digits_text (suc fuel) n) ≡ codes (digits_text fuel (n / 10)) ++ (b'0' + n % 10) ∷ []
unfolding digits_text
digits_text-suc fuel n h = elim (Bool-cases (ltb n 10)) [
  | inl small ↦ absurd (ground arith)
  | inr large ↦ rw (large, codes-append, digit_codes (n % 10) (omega arith))
]

digits_text-small : (fuel n : ℕ) → n < 10 → codes (digits_text (suc fuel) n) ≡ (b'0' + n) ∷ []
unfolding digits_text
digits_text-small fuel n h = elim (Bool-cases (ltb n 10)) [
  | inl small ↦ rw (small, digit_codes n h)
  | inr large ↦ absurd (ground arith)
]

parse_digits-digits_text :
    (fuel n : ℕ) → n < 10 ^ fuel → parse_digits 0 (codes (digits_text fuel n)) ≡ some n
unfolding parse_digits
parse_digits-digits_text zero n h = let z : 0 ≡ n = omega arith in unfold digits_text in ap some z
parse_digits-digits_text (suc fuel) n h = elim (Bool-cases (ltb n 10)) [
  | inl small ↦ rw (digits_text-small fuel n (ground arith)) (ground arith)
  | inr large ↦ rw (digits_text-suc fuel n (ground arith)) (
      parse_digits-append 0 (codes (digits_text fuel (n / 10))) (n / 10) (n % 10) (omega arith)
        (parse_digits-digits_text fuel (n / 10) (omega (arith, pow-suc 10 fuel)))
      ∙ ap some (omega arith))
]

-- What the loop writes begins with a digit.
digits_text-head :
    (fuel n : ℕ)
    → n < 10 ^ suc fuel
    → (c : ℕ) × (s : List ℕ) × (codes (digits_text (suc fuel) n) ≡ c ∷ s) × (b'0' ≤ c) × (c ≤ b'9')
digits_text-head zero n h = (
  b'0' + n,
  [],
  digits_text-small zero n (omega (arith, pow-suc 10 zero)),
  omega arith,
  omega (arith, pow-suc 10 zero),
)
digits_text-head (suc fuel) n h = elim (Bool-cases (ltb n 10)) [
  | inl small ↦
      (b'0' + n, [], digits_text-small (suc fuel) n (ground arith), omega arith, ground arith)
  | inr large ↦
      let (c, s, e, low, high) =
        digits_text-head fuel (n / 10) (omega (arith, pow-suc 10 (suc fuel))) in
      (
        c,
        s ++ (b'0' + n % 10) ∷ [],
        rw (digits_text-suc (suc fuel) n (ground arith), e) refl,
        low,
        high,
      )
]

parse_uint-digits_text : (n : ℕ) → n < 10 ^ 20 → parse_uint (codes (digits_text 20 n)) ≡ some n
parse_uint-digits_text n h =
    let (c, s, e, low, high) = digits_text-head 19 n h in
    rw e (unfold parse_uint in rw e at (parse_digits-digits_text 20 n h))

parse_signed-unsigned :
    (c : ℕ) (s : List ℕ) (n : ℕ)
    → b'0' ≤ c
    → c ≤ b'9'
    → parse_uint (c ∷ s) ≡ some n
    → n < half_range
    → parse_signed (c ∷ s) ≡ some (pos n)
unfolding parse_signed
parse_signed-unsigned c s n low high e h = ground arith

parse_signed-minus :
    (s : List ℕ) (n : ℕ)
    → parse_uint s ≡ some (suc n)
    → n < half_range
    → parse_signed (b'-' ∷ s) ≡ some (negsuc n)
unfolding parse_signed
parse_signed-minus s n e h = rw e (ground arith)

-- Reading what was written gives the number back, for every int64.
pub parse_int-format_int : (z : ℤ) → IsInt64 z → parse_int (format_int z) ≡ some z
unfolding parse_int format_int
parse_int-format_int (pos n) h =
    let (c, s, e, low, high) = digits_text-head 19 n (omega arith) in
    rw e (
      parse_signed-unsigned c s n low high (rw e at (parse_uint-digits_text n (omega arith)))
        (omega arith))
parse_int-format_int (negsuc n) h = rw codes-append (
    parse_signed-minus (codes (digits_text 20 (suc n))) n
      (parse_uint-digits_text (suc n) (omega arith)) (omega arith))
