-- ===== src/Session/Id.antt =====
-- Session identifiers (session.go): validation and generation.
pub mod Laws
use hermes_cluster.Base.{ℕ, ◌/◌, ◌%◌, String, List, [], ◌∷◌, ◌||◌, Bool, eqb, if◌then◌else◌}
use hermes_cluster.Base.Text.{codes, between, get_or, ◌<>◌}
use hermes_cluster.Base.Errors.{sentinel, invalid_id, wrap}
use hermes_cluster.Base.Exec.{Done, ok, err}
use hermes_cluster.Session.Pattern.{Pattern, class, seq, opt, up_to, matches}

-- [a-z0-9]
abbrev pub is_alphanumeric : ℕ → Bool
is_alphanumeric c = between b'a' b'z' c || between b'0' b'9' c

-- [a-z0-9-]
abbrev pub is_label_char : ℕ → Bool
is_label_char c = is_alphanumeric c || eqb c b'-'

-- ^[a-z0-9]([a-z0-9-]{0,50}[a-z0-9])?$
abbrev pub id_pattern : Pattern
id_pattern =
    seq (class is_alphanumeric) (opt (seq (up_to 50 (class is_label_char)) (class is_alphanumeric)))

unfoldable pub validate_id : String → Done
unfolding matches
validate_id id =
    if matches id_pattern (codes id) then ok tt else err (wrap id (sentinel invalid_id))

-- a digit of hex.EncodeToString
abbrev pub hex_table : List String
hex_table =
    "0" ∷ "1" ∷ "2" ∷ "3" ∷ "4" ∷ "5" ∷ "6" ∷ "7" ∷ "8" ∷ "9" ∷ "a" ∷ "b" ∷ "c" ∷ "d" ∷ "e" ∷ "f"
    ∷ []

unfoldable pub hex_digit : ℕ → String
hex_digit n = get_or hex_table n "f"

unfoldable pub encode_to_string : List ℕ → String
unfolding hex_digit
encode_to_string [] = ""
encode_to_string (b ∷ bytes) = hex_digit (b / 16) <> hex_digit (b % 16) <> encode_to_string bytes

-- `random` holds the five bytes that crypto/rand gave
unfoldable pub new_id : List ℕ → String
unfolding encode_to_string
new_id random = "s-" <> encode_to_string random
