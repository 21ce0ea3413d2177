-- ===== src/Lifecycle/Durations/Laws.antt =====
-- A duration that an annotation holds (lifecycle/manager.go).
use hermes_cluster.Base.{ℕ, ◌*◌, ◌<◌, ◌≡◌, ◌↔◌, false, ◌==◌, eq_iff, arith, Bool-cases, inl, inr}
use hermes_cluster.Base.Int.{
  ℤ, pos, negsuc, ◌*ℤ◌, IsInt64, half_range, wrap64-IsInt64, wrap64_of_IsInt64,
}
use hermes_cluster.Base.Decimal.{format_int, parse_int}
use hermes_cluster.Base.Decimal.RoundTrip.{parse_int-format_int}
use hermes_cluster.Clock.{Duration, seconds, second, nanoseconds_per_second}
use hermes_cluster.Lifecycle.Durations.{effective_duration}

pub format_int-ne-empty : (z : ℤ) → IsInt64 z → (format_int z == "") ≡ false
format_int-ne-empty z h = elim (Bool-cases (format_int z == "")) [
  | inl e ↦
      let none_some = rw ((eq_iff (format_int z) "").0 e) at (parse_int-format_int z h) in
      (unfold parse_int in cc)
  | inr e ↦ e
]

mul-second : (n : ℕ) → pos n *ℤ second ≡ pos (n * nanoseconds_per_second)
unfolding ◌*ℤ◌
mul-second n = ground arith

seconds_pos :
    (n : ℕ)
    → n * nanoseconds_per_second < half_range
    → seconds (pos n) ≡ pos (n * nanoseconds_per_second)
unfolding seconds
seconds_pos n h = rw mul-second (wrap64_of_IsInt64 _ (omega arith))

seconds-IsInt64 : (n : ℤ) → IsInt64 (seconds n)
unfolding seconds
seconds-IsInt64 n = wrap64-IsInt64 (n *ℤ second)

effective_duration-format_int :
    (n : ℕ) (default : Duration)
    → n < half_range
    → effective_duration (format_int (pos n)) default ≡ seconds (pos n)
unfolding effective_duration
effective_duration-format_int n default h =
    rw (format_int-ne-empty (pos n) (omega arith), parse_int-format_int (pos n) (omega arith))
      (ground arith)

-- A number of seconds stored in an annotation is the session's duration exactly when its
-- nanoseconds fit an int64; beyond that the product wraps around to another duration.
pub effective_duration_exact_iff :
    (n : ℕ) (default : Duration)
    → n < half_range
    → (effective_duration (format_int (pos n)) default ≡ pos (n * nanoseconds_per_second))
      ↔ (n * nanoseconds_per_second < half_range)
effective_duration_exact_iff n default h =
    rw (effective_duration-format_int n default h)
      (λ e. (rw e at (seconds-IsInt64 (pos n))).0, seconds_pos n)

-- A negative number of seconds leaves the default in force.
pub effective_duration-negative :
    (n : ℕ) (default : Duration)
    → n < half_range
    → effective_duration (format_int (negsuc n)) default ≡ default
unfolding effective_duration
effective_duration-negative n default h =
    rw (format_int-ne-empty (negsuc n) (omega arith), parse_int-format_int (negsuc n) (omega arith))
      (ground arith)
