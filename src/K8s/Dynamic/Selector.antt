-- ===== src/K8s/Dynamic/Selector.antt =====
-- Printing and parsing a label selector (parseSelector of k8s/exposure.go).

use text.Mathlib.TextLemmas.{nil-append, cons-append}
use hermes_cluster.Base.{
  ℕ, String, ◌≡◌, ◌≢◌, refl, Bool, true, false, not, Option, none, some, List, [], ◌∷◌, ◌++◌, arith,
  ◌∙◌, ◌==◌, eq_iff, eqb, if◌then◌else◌,
}
use hermes_cluster.Base.Text.{
  codes, codes-append, ◌<>◌, all, is_space, split, cut, trim_left, trim_right, trim_space,
}
use hermes_cluster.K8s.Value.{Value, str, Fields, end, get_field, set_field, get_field-set_field}
use hermes_cluster.K8s.Dynamic.Exposure.{add_pair, add_pairs, parse_selector}

-- no character of the text is of the class
abbrev is_free : (ℕ → Bool) → String → Bool
is_free class s = all (λ c. not (class c)) (codes s)

abbrev comma : ℕ → Bool
comma c = eqb c b','

abbrev equals : ℕ → Bool
equals c = eqb c b'='

split-free : (s : String) → is_free comma s ≡ true → split b',' s ≡ s ∷ []
unfolding split
split-free String.[] h = refl
split-free (String.◌∷◌ c s) h = let rest = split-free s in ground arith

split-append :
    (s t : String) → is_free comma s ≡ true → split b',' (s <> String.◌∷◌ "," t) ≡ s ∷ split b',' t
unfolding split
split-append String.[] t h = rw nil-append refl
split-append (String.◌∷◌ c s) t h =
    let rest = split-append s t in rw (cons-append c s (String.◌∷◌ "," t)) (ground arith)

cut-append :
    (k v : String) → is_free equals k ≡ true → cut b'=' (k <> String.◌∷◌ "=" v) ≡ some (k, v)
unfolding cut
cut-append String.[] v h = rw nil-append refl
cut-append (String.◌∷◌ c k) v h =
    let rest = cut-append k v in rw (cons-append c k (String.◌∷◌ "=" v)) (ground arith)

trim_right-free : (p : ℕ → Bool) (s : String) → is_free p s ≡ true → trim_right p s ≡ s
unfolding trim_right
trim_right-free p String.[] h = refl
trim_right-free p (String.◌∷◌ c s) h = let rest = trim_right-free p s in ground arith

trim_left-free : (p : ℕ → Bool) (s : String) → is_free p s ≡ true → trim_left p s ≡ s
unfolding trim_left
trim_left-free p String.[] h = refl
trim_left-free p (String.◌∷◌ c s) h = ground arith

all-append : (p : ℕ → Bool) (s t : List ℕ) → all p s ≡ true → all p t ≡ true → all p (s ++ t) ≡ true
all-append p [] t h k = k
all-append p (c ∷ s) t h k = let rest = all-append p s t in ground arith

-- A pair of a label selector as Kubernetes has them: the key is not empty and holds no comma,
-- no equals sign and no space, the value no comma and no space.
pub record IsPlain (pair : String × String) : Type 0 where
  pub named : pair.0 ≢ ""
  pub key_comma : is_free comma pair.0 ≡ true
  pub key_equals : is_free equals pair.0 ≡ true
  pub key_space : is_free is_space pair.0 ≡ true
  pub value_comma : is_free comma pair.1 ≡ true
  pub value_space : is_free is_space pair.1 ≡ true

abbrev pub pair_text : String × String → String
pair_text (k, v) = k <> String.◌∷◌ "=" v

-- "k=v,k2=v2"
abbrev pub selector_text : List (String × String) → String
selector_text [] = ""
selector_text (pair ∷ []) = pair_text pair
selector_text (pair ∷ next ∷ pairs) =
    pair_text pair <> String.◌∷◌ "," (selector_text (next ∷ pairs))

-- the value of a key: that of the last pair that has it
abbrev pub latest : String → List (String × String) → Option Value → Option Value
latest key [] old = old
latest key ((k, v) ∷ pairs) old = latest key pairs (if k == key then some (str v) else old)

abbrev pub AllPlain : List (String × String) → Type 0
AllPlain [] = Unit
AllPlain (pair ∷ pairs) = IsPlain pair × AllPlain pairs

pair_text-free :
    (class : ℕ → Bool) (k v : String)
    → class b'=' ≡ false
    → is_free class k ≡ true
    → is_free class v ≡ true
    → is_free class (pair_text (k, v)) ≡ true
pair_text-free class k v apart h j =
    let tail : is_free class (String.◌∷◌ "=" v) ≡ true = ground arith in
    rw (codes-append k (String.◌∷◌ "=" v))
      (all-append (λ c. not (class c)) (codes k) (codes (String.◌∷◌ "=" v)) h tail)

-- what the loop makes of one printed pair
add_printed :
    (k v : String) (out : Fields)
    → IsPlain (k, v)
    → add_pair (cut b'=' (trim_space (pair_text (k, v)))) out ≡ set_field k (str v) out
unfolding add_pair
add_printed k v out plain =
    let free = pair_text-free is_space k v refl plain.key_space plain.value_space in
    rw
      (
        trim_right-free is_space (pair_text (k, v)) free,
        trim_left-free is_space (pair_text (k, v)) free,
        cut-append k v plain.key_equals,
      )
      (ground (arith, eq_iff k "", plain.named))

get_field-add_printed :
    (key : String) (pairs : List (String × String)) (out : Fields)
    → AllPlain pairs
    → get_field key (add_pairs (split b',' (selector_text pairs)) out)
      ≡ latest key pairs (get_field key out)
unfolding add_pairs
get_field-add_printed key [] out plain = unfold split cut trim_left trim_right add_pair in refl
get_field-add_printed key ((k, v) ∷ []) out (plain, _) =
    let whole =
      split-free (pair_text (k, v))
        (pair_text-free comma k v refl plain.key_comma plain.value_comma) in
    rw (whole, add_printed k v out plain, get_field-set_field k key (str v) out) refl
get_field-add_printed key ((k, v) ∷ next ∷ pairs) out (plain, rest) =
    let whole =
      split-append (pair_text (k, v)) (selector_text (next ∷ pairs))
        (pair_text-free comma k v refl plain.key_comma plain.value_comma) in
    let later = get_field-add_printed key (next ∷ pairs) (set_field k (str v) out) rest in
    rw (whole, add_pairs, add_printed k v out plain)
      (later ∙ rw (get_field-set_field k key (str v) out) refl)

-- Take pairs as Kubernetes has them: every key is not empty, no key holds a comma, an equals sign or
-- a space, and no value a comma or a space. Printing them as a selector and parsing that gives, at
-- every key, the value of the last pair with that key, and nothing at a key that no pair has.
pub parse_selector-text :
    (key : String) (pairs : List (String × String))
    → AllPlain pairs
    → get_field key (parse_selector (selector_text pairs)) ≡ latest key pairs none
unfolding parse_selector get_field
parse_selector-text key pairs plain = get_field-add_printed key pairs end plain
