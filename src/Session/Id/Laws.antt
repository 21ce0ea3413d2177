-- ===== src/Session/Id/Laws.antt =====
-- Which identifiers are valid, and that the generated ones are (session/session.go).
use hermes_cluster.Base.{
  ℕ, zero, suc, ◌≤◌, ◌/◌, ◌%◌, String, ◌≡◌, refl, ◌↔◌, Bool, true, false, ◌&&◌, ◌||◌, List, [], ◌∷◌,
  ◌++◌, arith, ◌+◌, ◌*◌,
}
use hermes_cluster.Base.Text.{codes, length, all, get_or, codes-append}
use hermes_cluster.Base.Exec.{ok}
use hermes_cluster.Session.Pattern.{Pattern, class, seq, up_to, run, run_class, at_end, matches}
use hermes_cluster.Session.Id.{
  is_alphanumeric, is_label_char, id_pattern, validate_id, hex_table, hex_digit, encode_to_string,
  new_id,
}

-- whether the text has a last character, in the class
abbrev pub ends_in : (ℕ → Bool) → List ℕ → Bool
ends_in p [] = false
ends_in p (c ∷ []) = p c
ends_in p (c ∷ d ∷ s) = ends_in p (d ∷ s)

abbrev pub starts_in : (ℕ → Bool) → List ℕ → Bool
starts_in p [] = false
starts_in p (c ∷ s) = p c

-- A DNS-1123 label of at most 52 characters.
pub record IsLabel (s : List ℕ) : Type 0 where
  pub first : starts_in is_alphanumeric s ≡ true
  pub last : ends_in is_alphanumeric s ≡ true
  pub within : all is_label_char s ≡ true
  pub short : length s ≤ 52

module _ (p q : ℕ → Bool) where
  last_of : List ℕ → Bool
  last_of rest = run_class q rest at_end

  run-up_to_iff :
      (n : ℕ) (s : List ℕ)
      → ((c : ℕ) → q c ≡ true → p c ≡ true)
      → (run (up_to n (class p)) s last_of ≡ true)
        ↔ ((ends_in q s ≡ true) × (all p s ≡ true) × (length s ≤ suc n))
  unfolding run last_of
  run-up_to_iff zero [] h = ground arith
  run-up_to_iff zero (c ∷ []) h = ground (arith, h c)
  run-up_to_iff zero (c ∷ d ∷ s) h = ground arith
  run-up_to_iff (suc n) [] h = ground arith
  run-up_to_iff (suc n) (c ∷ []) h = ground (arith, h c, run-up_to_iff n [] h)
  run-up_to_iff (suc n) (c ∷ d ∷ s) h = ground (arith, run-up_to_iff n (d ∷ s) h)

is_alphanumeric-is_label_char : (c : ℕ) → is_alphanumeric c ≡ true → is_label_char c ≡ true
is_alphanumeric-is_label_char c h = ground arith

id_tail : Pattern
id_tail = seq (up_to 50 (class is_label_char)) (class is_alphanumeric)

id_tail_iff :
    (s : List ℕ)
    → (run id_tail s at_end ≡ true)
      ↔ ((ends_in is_alphanumeric s ≡ true) × (all is_label_char s ≡ true) × (length s ≤ 51))
unfolding run last_of id_tail
id_tail_iff s = run-up_to_iff is_label_char is_alphanumeric 50 s is_alphanumeric-is_label_char

matches-cons :
    (c : ℕ) (s : List ℕ)
    → matches id_pattern (c ∷ s) ≡ (is_alphanumeric c && (at_end s || run id_tail s at_end))
unfolding matches run id_tail
matches-cons c s = refl

id_pattern_iff : (s : List ℕ) → (matches id_pattern s ≡ true) ↔ IsLabel s
id_pattern_iff [] = (unfold matches run in λ h. cc, λ l. let f = l.first in cc)
id_pattern_iff (c ∷ []) = rw matches-cons (ground arith)
id_pattern_iff (c ∷ d ∷ s) =
    rw matches-cons (ground (arith, id_tail_iff (d ∷ s), is_alphanumeric-is_label_char c))

-- An id is accepted exactly when it is a DNS-1123 label of at most 52 characters: lowercase
-- letters, digits and dashes, with a letter or a digit at both ends. Any other id is refused.
pub validate_id_iff : (id : String) → (validate_id id ≡ ok tt) ↔ IsLabel (codes id)
unfolding validate_id
validate_id_iff id = ground (arith, id_pattern_iff (codes id))

-- one letter or digit
abbrev OneDigit : String → Type 0
OneDigit t = (all is_alphanumeric (codes t) ≡ true) × (length (codes t) ≡ 1)

abbrev AllDigits : List String → Type 0
AllDigits [] = Unit
AllDigits (t ∷ table) = OneDigit t × AllDigits table

get_or-OneDigit :
    (table : List String) (n : ℕ) (d : String)
    → AllDigits table
    → OneDigit d
    → OneDigit (get_or table n d)
get_or-OneDigit [] n d a o = o
get_or-OneDigit (t ∷ table) zero d (h, a) o = h
get_or-OneDigit (t ∷ table) (suc n) d (h, a) o = get_or-OneDigit table n d a o

hex_digit-OneDigit : (n : ℕ) → OneDigit (hex_digit n)
unfolding hex_digit
hex_digit-OneDigit n = get_or-OneDigit hex_table n "f" (ground arith) (refl, refl)

all-append : (p : ℕ → Bool) (s t : List ℕ) → all p s ≡ true → all p t ≡ true → all p (s ++ t) ≡ true
all-append p [] t h k = k
all-append p (c ∷ s) t h k = ground (arith, all-append p s t)

length-append : (s t : List ℕ) → length (s ++ t) ≡ length s + length t
length-append [] t = omega arith
length-append (c ∷ s) t = omega (arith, length-append s t)

encode_to_string-codes :
    (bytes : List ℕ)
    → (all is_alphanumeric (codes (encode_to_string bytes)) ≡ true)
      × (length (codes (encode_to_string bytes)) ≡ 2 * length bytes)
unfolding encode_to_string
encode_to_string-codes [] = (refl, omega arith)
encode_to_string-codes (b ∷ bytes) =
    let (high, one) = hex_digit-OneDigit (b / 16) in
    let (low, one') = hex_digit-OneDigit (b % 16) in
    let (rest, many) = encode_to_string-codes bytes in
    rw (codes-append, codes-append)
      (
        all-append is_alphanumeric (codes (hex_digit (b / 16))) _ high (
            all-append is_alphanumeric (codes (hex_digit (b % 16))) (codes (encode_to_string bytes))
              low rest),
        rw (length-append, length-append) (omega arith),
      )

ends_in_of_all :
    (p : ℕ → Bool) (c : ℕ) (s : List ℕ) → all p (c ∷ s) ≡ true → ends_in p (c ∷ s) ≡ true
ends_in_of_all p c [] h = ground arith
ends_in_of_all p c (d ∷ s) h = ends_in_of_all p d s (ground arith)

all_label_of_alphanumeric : (s : List ℕ) → all is_alphanumeric s ≡ true → all is_label_char s ≡ true
all_label_of_alphanumeric [] h = refl
all_label_of_alphanumeric (c ∷ s) h =
    ground (arith, is_alphanumeric-is_label_char c, all_label_of_alphanumeric s)

-- "s-" and a few letters or digits
prefixed-IsLabel :
    (s : List ℕ)
    → all is_alphanumeric s ≡ true
    → 1 ≤ length s
    → length s ≤ 50
    → IsLabel (codes "s-" ++ s)
prefixed-IsLabel [] h low high = absurd (omega arith)
prefixed-IsLabel (c ∷ s) h low high = record {
  first = refl;
  last = ends_in_of_all is_alphanumeric c s h;
  within = all_label_of_alphanumeric (c ∷ s) h;
  short = omega arith;
}

-- A generated id, from whatever five random bytes, is valid.
pub validate_id-new_id : (random : List ℕ) → length random ≡ 5 → validate_id (new_id random) ≡ ok tt
unfolding new_id
validate_id-new_id random five =
    let (letters, many) = encode_to_string-codes random in
    (validate_id_iff _).1 (rw codes-append (prefixed-IsLabel _ letters (omega arith) (omega arith)))
