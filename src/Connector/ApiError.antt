-- ===== src/Connector/ApiError.antt =====
-- The text of an APIError (connector/client.go): `itoa`, which writes the digits of a number into a
-- buffer of 8 bytes, and `Error`. A result of `none` is a panic.
pub mod Laws
use Prim.Native.String
use hermes_cluster.Base.{ℕ, zero, suc, ◌/◌, ◌%◌, String, Option, none, some, eqb, if◌then◌else◌}
use hermes_cluster.Base.Int.{ℤ, pos, negsuc}
use hermes_cluster.Base.Text.{◌<>◌}
use hermes_cluster.Base.Decimal.{digit_text}

-- The loop, with `i` bytes of the buffer left in front of what is written.
unfoldable pub write_digits : ℕ → ℕ → String → Option String
write_digits zero n written = if eqb n 0 then some written else none
write_digits (suc i) n written =
    let rest = write_digits i (n / 10) (digit_text (n % 10) <> written) in
    if eqb n 0 then some written else rest

-- itoa: a negative number never enters the loop
unfoldable pub itoa : ℤ → Option String
unfolding write_digits
itoa (pos n) = if eqb n 0 then some "0" else write_digits 8 n ""
itoa (negsuc n) = some ""

-- (*APIError).Error
unfoldable pub error : ℤ → String → Option String
unfolding itoa
error status message = elim (itoa status) [
  | none ↦ none
  | some code ↦ some ("connector: HTTP " <> code <> ": " <> message)
]
