-- ===== src/Config/Reading.antt =====
-- The readers of single settings (config/config.go).
use hermes_cluster.Base.{
  ℕ, ◌+◌, String, Bool, true, false, ◌||◌, Option, none, some, List, map, ◌==◌, if◌then◌else◌,
}
use hermes_cluster.Base.Int.{ℤ}
use hermes_cluster.Base.Text.{codes, between, same_text, ◌<>◌, trim_left, trim_right, trim_space}
use hermes_cluster.Base.Decimal.{parse_int}
use hermes_cluster.Base.Errors.{other}
use hermes_cluster.Base.Exec.{Exec, Result, ok, err}
use hermes_cluster.Clock.ParseDuration.{parse_duration}
use hermes_cluster.Clock.{Duration, seconds}
use hermes_cluster.Config.{Env}

-- strings.ToLower, for the comparison with ASCII words
abbrev pub lower : List ℕ → List ℕ
lower s = map (λ c. if between b'A' b'Z' c then c + 32 else c) s

abbrev pub reads_as : String → String → Bool
reads_as text word = same_text (lower (codes text)) (codes word)

-- the value of a variable that is set and not empty
abbrev pub present : Option String → Option String
present none = none
present (some v) = if v == "" then none else some v

unfoldable pub getenv : String → String → Exec Env String
getenv key default e = elim (present (e.lookup_env key)) [
  | none ↦ (ok default, e)
  | some v ↦ (ok v, e)
]

unfoldable pub bool_of : String → String → Result Bool
bool_of key v =
    if reads_as v "1" || reads_as v "true" || reads_as v "yes"
    then ok true
    else if reads_as v "0" || reads_as v "false" || reads_as v "no"
    then ok false
    else err (other (key <> ": cannot parse as bool"))

unfoldable pub get_bool : String → Bool → Exec Env Bool
unfolding bool_of
get_bool key default e = elim (present (e.lookup_env key)) [
  | none ↦ (ok default, e)
  | some v ↦ (bool_of key v, e)
]

unfoldable pub int_of : String → Option ℤ → Result ℤ
int_of key none = err (other (key <> ": cannot parse as integer"))
int_of key (some n) = ok n

-- strconv.Atoi is ParseInt in base 10 for a 64-bit int
unfoldable pub get_int : String → ℤ → Exec Env ℤ
unfolding int_of
get_int key default e = elim (present (e.lookup_env key)) [
  | none ↦ (ok default, e)
  | some v ↦ (int_of key (parse_int v), e)
]

-- a bare integer counts seconds, in an int64 product
unfoldable pub duration_of : String → Option ℤ → Option Duration → Result Duration
duration_of key (some secs) d = ok (seconds secs)
duration_of key none (some d) = ok d
duration_of key none none = err (other (key <> ": cannot parse as duration"))

unfoldable pub get_duration : String → Duration → Exec Env Duration
unfolding duration_of
get_duration key default e = elim (present (e.lookup_env key)) [
  | none ↦ (ok default, e)
  | some v ↦ (duration_of key (parse_int v) (parse_duration e.fraction v), e)
]

-- the content of a secret's file
unfoldable pub secret_of : String → Option String → Result String
unfolding trim_left trim_right
secret_of key none = err (other (key <> "_FILE"))
secret_of key (some text) =
    if trim_space text == ""
    then err (other (key <> "_FILE: file is empty"))
    else ok (trim_space text)

abbrev or_empty : Option String → String
or_empty none = ""
or_empty (some v) = v

unfoldable pub load_secret : String → Exec Env String
unfolding secret_of
load_secret key e = elim (present (e.lookup_env (key <> "_FILE"))) [
  | some path ↦ (secret_of key (e.read_file path), e)
  | none ↦ (ok (or_empty (e.lookup_env key)), e)
]

abbrev or_default_namespace : String → String
or_default_namespace name = if name == "" then "default" else name

abbrev file_namespace : Option String → String
file_namespace none = ""
file_namespace (some text) = trim_space text

-- HLM_NAMESPACE, the namespace of the pod, or "default"
unfoldable pub namespace_of : String → Exec Env String
unfolding trim_left trim_right
namespace_of name e =
    if name == ""
    then (
      ok (
          or_default_namespace (
            file_namespace
              (e.read_file "/var/run/secrets/kubernetes.io/serviceaccount/namespace"))),
      e,
    )
    else (ok name, e)
