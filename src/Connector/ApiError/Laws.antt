-- ===== src/Connector/ApiError/Laws.antt =====
-- How far `itoa` is the decimal text of its number (connector/client.go).
use native.Mathlib.Nat.{pow-suc}
use text.Mathlib.TextLemmas.{append-nil, append_assoc}
use hermes_cluster.Base.{
  ℕ, zero, suc, ◌/◌, ◌%◌, ◌^◌, ◌<◌, ◌≤◌, ◌≡◌, refl, ◌∙◌, String, none, some, eqb, ltb, true, false,
  if◌then◌else◌, arith, Bool-cases, inl, inr,
}
use hermes_cluster.Base.Int.{pos}
use hermes_cluster.Base.Text.{◌<>◌}
use hermes_cluster.Base.Decimal.{digit_text, digits_text, format_int}
use hermes_cluster.Connector.ApiError.{write_digits, itoa}

write_digits-zero : (i : ℕ) (written : String) → write_digits i 0 written ≡ some written
unfolding write_digits
write_digits-zero zero written = refl
write_digits-zero (suc i) written = refl

pow_pos : (i : ℕ) → 0 < 10 ^ i
pow_pos zero = omega arith
pow_pos (suc i) = omega (arith, pow-suc 10 i, pow_pos i)

digits_text_small : (fuel n : ℕ) → n < 10 → digits_text (suc fuel) n ≡ digit_text n
unfolding digits_text
digits_text_small fuel n h = ground arith

digits_text_large :
    (fuel n : ℕ)
    → 10 ≤ n
    → digits_text (suc fuel) n ≡ digits_text fuel (n / 10) <> digit_text (n % 10)
unfolding digits_text
digits_text_large fuel n h = ground arith

-- With room for its digits, the loop puts the decimal text of the number in front of what is
-- written; without, it runs out of the buffer.
write_digits_lem :
    (i fuel n : ℕ) (written : String)
    → 0 < n
    → i ≤ fuel
    → write_digits i n written
      ≡ (if ltb n (10 ^ i) then some (digits_text fuel n <> written) else none)
unfolding write_digits
write_digits_lem zero fuel n written h fits = ground arith
write_digits_lem (suc i) zero n written h fits = absurd (omega arith)
write_digits_lem (suc i) (suc fuel) n written h fits = elim (Bool-cases (ltb n 10)) [
  | inl small ↦
      let least : n < 10 = ground arith in
      let none_left : n / 10 ≡ 0 = omega arith in
      let digit : n % 10 ≡ n = omega arith in
      let inside : ltb n (10 ^ suc i) ≡ true = ground (arith, pow-suc 10 i, pow_pos i) in
      let some_left : eqb n 0 ≡ false = ground arith in
      rw
        (
          some_left,
          inside,
          none_left,
          digit,
          write_digits-zero i (digit_text n <> written),
          digits_text_small fuel n least,
        )
        refl
  | inr large ↦
      let most : 10 ≤ n = ground arith in
      let some_left : eqb n 0 ≡ false = ground arith in
      let same : ltb n (10 ^ suc i) ≡ ltb (n / 10) (10 ^ i) = ground (arith, pow-suc 10 i) in
      rw
        (
          some_left,
          same,
          write_digits_lem i fuel (n / 10) (digit_text (n % 10) <> written) (omega arith)
              (omega arith),
          digits_text_large fuel n most,
          append_assoc (digits_text fuel (n / 10)) (digit_text (n % 10)) written,
        )
        refl
]

itoa_of_pos : (n : ℕ) → eqb n 0 ≡ false → itoa (pos n) ≡ write_digits 8 n ""
unfolding itoa
itoa_of_pos n h = rw h refl

itoa_zero : itoa (pos 0) ≡ some (format_int (pos 0))
unfolding itoa format_int digits_text digit_text
itoa_zero = refl

-- The text of a number that is not negative is its decimal text where the buffer holds it, and past
-- eight digits the loop panics.
pub itoa_lem :
    (n : ℕ) → itoa (pos n) ≡ (if ltb n 100000000 then some (format_int (pos n)) else none)
itoa_lem n = elim (Bool-cases (eqb n 0)) [
  | inl nothing ↦ let same : n ≡ 0 = ground arith in rw same itoa_zero
  | inr something ↦
      itoa_of_pos n something
      ∙ write_digits_lem 8 20 n "" (ground arith) (omega arith)
      ∙ unfold format_int in rw (append-nil (digits_text 20 n)) refl
]
