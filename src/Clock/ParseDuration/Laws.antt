-- ===== src/Clock/ParseDuration/Laws.antt =====
-- The loop of ParseDuration ends, and what it returns is an int64.
use hermes_cluster.Base.{
  ℕ, zero, suc, ◌+◌, ◌-◌, ◌*◌, ◌%◌, ◌≤◌, ◌<◌, ◌≡◌, refl, sym, ◌∙◌, ap, String, Bool, true, false,
  none, some, List, [], ◌∷◌, ltb, eqb, if◌then◌else◌, arith, subst, ◌||◌, Option-cases, inl, inr,
  Bool-cases,
}
use hermes_cluster.Base.Int.{pos, ◌-ℤ◌, half_range, full_range, IsInt64}
use hermes_cluster.Base.Text.{codes, length, same_text}
use hermes_cluster.Clock.{Duration}
use hermes_cluster.Clock.ParseDuration.{
  leading_int, leading_fraction, unit_name, unit_of, point, lacks_number, signed, amount, term,
  terms, parse_unsigned, parse_codes, parse_duration,
}

leading_int-length :
    (x : ℕ) (s : List ℕ) (v : ℕ) (rest : List ℕ)
    → leading_int x s ≡ some (v, rest)
    → length rest ≤ length s
unfolding leading_int
leading_int-length x [] v rest h = ground arith
leading_int-length x (c ∷ s) v rest h =
    let later = leading_int-length (x * 10 + (c - b'0')) s v rest in ground arith

leading_fraction-length :
    (over : Bool) (x scale : ℕ) (s : List ℕ) → length (leading_fraction over x scale s).2 ≤ length s
unfolding leading_fraction
leading_fraction-length over x scale [] = omega arith
leading_fraction-length over x scale (c ∷ s) =
    let y = x * 10 + (c - b'0') in
    let skipped = leading_fraction-length true x scale s in
    let taken = leading_fraction-length false y (scale * 10) s in ground arith

point-length : (s : List ℕ) → length (point s).2 ≤ length s
unfolding point
point-length [] = omega arith
point-length (c ∷ s) = ground (arith, leading_fraction-length false 0 1 s)

unit_name-length : (s : List ℕ) → length (unit_name s).0 + length (unit_name s).1 ≡ length s
unfolding unit_name
unit_name-length [] = refl
unit_name-length (c ∷ s) = let rest = unit_name-length s in ground arith

unit_of-length : (name : List ℕ) (unit : ℕ) → unit_of name ≡ some unit → 0 < length name
unfolding unit_of
unit_of-length [] unit h = absurd cc
unit_of-length (c ∷ name) unit h = omega arith

signed-IsInt64 :
    (negative : Bool) (d : ℕ) (z : Duration)
    → d ≤ half_range
    → signed negative (some d) ≡ some z
    → IsInt64 z
unfolding ◌-ℤ◌
signed-IsInt64 true d z fits h = ground arith
signed-IsInt64 false d z fits h = ground arith

module _ (fraction : ℕ → ℕ → ℕ → ℕ) where
  -- a term is at least one character
  term-length :
      (s : List ℕ) (v : ℕ) (rest : List ℕ)
      → term fraction s ≡ some (v, rest)
      → length rest < length s
  unfolding term
  term-length s v rest h = elim (Bool-cases (lacks_number s)) [
    | inl bad ↦ absurd (ground arith)
    | inr good ↦ elim (Option-cases (leading_int 0 s)) [
      | inl over ↦ absurd (ground arith)
      | inr ((n, s₁), read) ↦
          let (f, scale, s₂) = point s₁ in
          let (name, s₃) = unit_name s₂ in
          let shorter = leading_int-length 0 s n s₁ read in
          elim (Option-cases (unit_of name)) [
            | inl unknown ↦ absurd (ground arith)
            | inr (unit, known) ↦ elim (Option-cases (amount fraction n f scale unit)) [
              | inl large ↦ absurd (ground arith)
              | inr (x, fits) ↦
                  let same : rest ≡ s₃ = ground arith in
                  omega (
                    arith,
                    ap length same,
                    shorter,
                    point-length s₁,
                    unit_name-length s₂,
                    unit_of-length name unit known,
                  )
            ]
          ]
    ]
  ]

  terms_read :
      (fuel d c : ℕ) (s : List ℕ) (v : ℕ) (rest : List ℕ)
      → term fraction (c ∷ s) ≡ some (v, rest)
      → terms fraction (suc fuel) d (c ∷ s) ≡ (
          let sum = (d + v) % full_range in
          if ltb half_range sum then none else terms fraction fuel sum rest)
  unfolding terms
  terms_read fuel d c s v rest read = rw (terms, read) refl

  terms_unread :
      (fuel d c : ℕ) (s : List ℕ)
      → term fraction (c ∷ s) ≡ none
      → terms fraction (suc fuel) d (c ∷ s) ≡ none
  unfolding terms
  terms_unread fuel d c s bad = rw (terms, bad) refl

  -- The loop has enough fuel: any two amounts of it that are at least the length of the text give
  -- the same result.
  pub terms_enough :
      (fuel more d : ℕ) (s : List ℕ)
      → length s ≤ fuel
      → length s ≤ more
      → terms fraction fuel d s ≡ terms fraction more d s
  unfolding terms
  terms_enough fuel more d [] h k = refl
  terms_enough zero more d (c ∷ s) h k = absurd (omega arith)
  terms_enough (suc fuel) zero d (c ∷ s) h k = absurd (omega arith)
  terms_enough (suc fuel) (suc more) d (c ∷ s) h k = elim (Option-cases (term fraction (c ∷ s))) [
    | inl bad ↦ rw (terms_unread fuel d c s bad, terms_unread more d c s bad) refl
    | inr ((v, rest), read) ↦
        let shorter = term-length (c ∷ s) v rest read in
        let sum = (d + v) % full_range in
        rw
          (
            terms_read fuel d c s v rest read,
            terms_read more d c s v rest read,
            terms_enough fuel more sum rest (omega arith) (omega arith),
          )
          refl
  ]

  terms-le :
      (fuel d : ℕ) (s : List ℕ) (x : ℕ)
      → d ≤ half_range
      → terms fraction fuel d s ≡ some x
      → x ≤ half_range
  unfolding terms
  terms-le fuel d [] x h e = ground arith
  terms-le zero d (c ∷ s) x h e = absurd cc
  terms-le (suc fuel) d (c ∷ s) x h e = elim (Option-cases (term fraction (c ∷ s))) [
    | inl bad ↦ let nothing : none ≡ some x = sym (terms_unread fuel d c s bad) ∙ e in absurd cc
    | inr ((v, rest), read) ↦
        let sum = (d + v) % full_range in
        let step = sym (terms_read fuel d c s v rest read) ∙ e in
        elim (Bool-cases (ltb half_range sum)) [
          | inl over ↦ let nothing : none ≡ some x = rw over at step in absurd cc
          | inr fits ↦
              let least : sum ≤ half_range = ground arith in
              terms-le fuel sum rest x least (rw fits at step)
        ]
  ]

  parse_unsigned-IsInt64 :
      (negative : Bool) (s : List ℕ) (z : Duration)
      → parse_unsigned fraction negative s ≡ some z
      → IsInt64 z
  unfolding parse_unsigned ◌-ℤ◌
  parse_unsigned-IsInt64 negative [] z h = absurd cc
  parse_unsigned-IsInt64 negative (c ∷ s) z h = elim (Bool-cases (same_text (c ∷ s) (codes "0"))) [
    | inl zero_text ↦
        let read : some (pos 0) ≡ some z = rw zero_text at h in
        let same : pos 0 ≡ z = cc in subst IsInt64 same (omega arith, omega arith)
    | inr more ↦
        let whole = length (c ∷ s) in
        let read : signed negative (terms fraction whole 0 (c ∷ s)) ≡ some z = rw more at h in
        elim (Option-cases (terms fraction whole 0 (c ∷ s))) [
          | inl bad ↦ let nothing : none ≡ some z = rw bad at read in absurd cc
          | inr (d, sum) ↦
              signed-IsInt64 negative d z (terms-le whole 0 (c ∷ s) d (omega arith) sum)
                (rw sum at read)
        ]
  ]

  parse_codes-IsInt64 : (s : List ℕ) (z : Duration) → parse_codes fraction s ≡ some z → IsInt64 z
  unfolding parse_codes
  parse_codes-IsInt64 [] z h = absurd cc
  parse_codes-IsInt64 (c ∷ s) z h = elim (Bool-cases (eqb c b'-' || eqb c b'+')) [
    | inl sign ↦ parse_unsigned-IsInt64 (eqb c b'-') s z (rw sign at h)
    | inr none_there ↦ parse_unsigned-IsInt64 false (c ∷ s) z (rw none_there at h)
  ]

  -- A duration that is read is an int64.
  pub parse_duration-IsInt64 :
      (text : String) (z : Duration) → parse_duration fraction text ≡ some z → IsInt64 z
  unfolding parse_duration
  parse_duration-IsInt64 text z h = parse_codes-IsInt64 (codes text) z h
