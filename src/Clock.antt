-- ===== src/Clock.antt =====
-- Go's `time` package as the program uses it. A `Duration` is an int64 count of nanoseconds. A
-- `Time` is the count of nanoseconds from Go's zero time, January 1 of year 1 (UTC), so that
-- `IsZero` is a test for 0; monotonic readings, which only sharpen `Sub`, are not modelled.
pub mod Calendar
pub mod Rfc3339
pub mod ParseDuration
use hermes_cluster.Base.{ℕ, suc, ◌/◌, ◌-◌, ◌≡◌, ◌↔◌, Bool, true, arith}
use hermes_cluster.Base.Int.{
  ℤ, pos, negsuc, ◌+ℤ◌, ◌-ℤ◌, ◌*ℤ◌, ◌<ℤ◌, ◌≤ℤ◌, ltb_ℤ, leb_ℤ, half_range, eqb_ℤ, IsInt64, wrap64,
  saturate64, +ℤ_parts, -ℤ_parts,
}

abbrev pub Duration : Type 0
Duration = ℤ

abbrev pub Time : Type 0
Time = ℤ

abbrev pub nanoseconds_per_second : ℕ
nanoseconds_per_second = 1000000000

-- time.Second
abbrev pub second : Duration
second = pos nanoseconds_per_second

-- time.Duration(n) * time.Second, an int64 product
unfoldable pub seconds : ℤ → Duration
seconds n = wrap64 (n *ℤ second)

-- int64(d / time.Second): Go's quotient truncates towards 0
unfoldable pub whole_seconds : Duration → ℤ
whole_seconds (pos n) = pos (n / nanoseconds_per_second)
whole_seconds (negsuc n) = pos 0 -ℤ pos (suc n / nanoseconds_per_second)

-- time.Time{}
abbrev pub zero_time : Time
zero_time = pos 0

-- t.IsZero()
abbrev pub is_zero : Time → Bool
is_zero t = eqb_ℤ t zero_time

-- t.Before(u)
abbrev pub before : Time → Time → Bool
before t u = ltb_ℤ t u

-- t.Sub(u), which saturates
unfoldable pub sub : Time → Time → Duration
sub t u = saturate64 (t -ℤ u)

-- t.Add(d)
unfoldable pub add : Time → Duration → Time
add t d = t +ℤ d

-- the seconds from the zero time to January 1, 1970 (unixToInternal)
abbrev pub unix_to_internal : ℕ
unix_to_internal = 62135596800

-- time.Unix(sec, 0): the internal seconds are an int64
unfoldable pub unix : ℤ → Time
unix sec = wrap64 (sec +ℤ pos unix_to_internal) *ℤ second

-- t.Unix(): the quotient of the internal count is its floor
unfoldable pub to_unix : Time → ℤ
to_unix (pos n) = pos (n / nanoseconds_per_second) -ℤ pos unix_to_internal
to_unix (negsuc n) = negsuc (n / nanoseconds_per_second) -ℤ pos unix_to_internal

-- Successive readings of the clock, `time.Now()`.
pub record Clock : Type 0 where
  pub now_at : ℕ → Time
  pub reads : ℕ

-- For a positive duration the saturation of `Sub` is invisible: `t.Sub(u) < d` exactly when the
-- time `u + d` is still ahead of `t`.
pub sub-lt_iff :
    (t u : Time) (d : Duration)
    → IsInt64 d
    → pos 0 <ℤ d
    → (ltb_ℤ (sub t u) d ≡ true) ↔ (t <ℤ u +ℤ d)
unfolding sub saturate64
sub-lt_iff t u d h p = ground (arith, -ℤ_parts t u, +ℤ_parts u d)

-- The same for a duration that `Sub` cannot exceed only by saturating.
pub sub-le_iff :
    (t u : Time) (d : Duration)
    → pos 0 ≤ℤ d
    → d <ℤ pos (half_range - 1)
    → (leb_ℤ (sub t u) d ≡ true) ↔ (t ≤ℤ u +ℤ d)
unfolding sub saturate64
sub-le_iff t u d p h = ground (arith, -ℤ_parts t u, +ℤ_parts u d)
