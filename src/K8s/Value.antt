-- ===== src/K8s/Value.antt =====
-- The dynamic values of Go (`interface{}`) from which the Kubernetes objects of internal/k8s are
-- built and read: what their literals hold, the path of keys into one, and the JSON merge patch of
-- RFC 7386, in whose terms the API server is described.
pub mod Merge
pub mod Patching
use hermes_cluster.Base.{
  String, ◌≡◌, refl, Bool, true, false, ◌&&◌, Option, none, some, List, [], ◌∷◌, arith, ◌==◌,
  eq_iff, if◌then◌else◌,
}
use hermes_cluster.Base.Int.{ℤ}

mutual
  pub data Value : Type 0 where
    null : Value
    bool : Bool → Value
    int : ℤ → Value
    str : String → Value
    slice : Items → Value
    object : Fields → Value

  pub data Items : Type 0 where
    nil : Items
    cons : Value → Items → Items

  -- map[string]interface{}
  pub data Fields : Type 0 where
    end : Fields
    field : String → Value → Fields → Fields

-- fs[key]
unfoldable pub get_field : String → Fields → Option Value
get_field key end = none
get_field key (field own value rest) = if own == key then some value else get_field key rest

-- fs[key] = new
unfoldable pub set_field : String → Value → Fields → Fields
set_field key new end = field key new end
set_field key new (field own value rest) =
    if own == key then field key new rest else field own value (set_field key new rest)

-- delete(fs, key)
unfoldable pub remove_field : String → Fields → Fields
remove_field key end = end
remove_field key (field own value rest) =
    let later = remove_field key rest in if own == key then later else field own value later

pub get_field-set_field :
    (set read : String) (new : Value) (fs : Fields)
    → get_field read (set_field set new fs) ≡ (if set == read then some new else get_field read fs)
unfolding get_field set_field
get_field-set_field set read new end = refl
get_field-set_field set read new (field own value rest) =
    let later = get_field-set_field set read new rest in
    ground (arith, eq_iff own set, eq_iff own read, eq_iff set read)

pub get_field-remove_field :
    (key read : String) (fs : Fields)
    → get_field read (remove_field key fs) ≡ (if key == read then none else get_field read fs)
unfolding get_field remove_field
get_field-remove_field key read end = ground arith
get_field-remove_field key read (field own value rest) =
    ground (
      arith,
      eq_iff own key,
      eq_iff own read,
      eq_iff key read,
      get_field-remove_field key read rest,
    )

-- What stands at a path: a value, nothing, or something that has no keys on the way.
pub data Found : Type 0 where
  found : Value → Found
  missing mistyped : Found

unfoldable pub or_missing : Option Value → Found
or_missing none = missing
or_missing (some v) = found v

-- one key further down; a `null` on the way counts as nothing
unfoldable pub child : String → Found → Found
unfolding or_missing
child key (found (object fs)) = or_missing (get_field key fs)
child key (found null) = missing
child key (found v) = mistyped
child key missing = missing
child key mistyped = mistyped

abbrev pub at : List String → Found → Found
at [] x = x
at (key ∷ path) x = at path (child key x)

-- the value as a text
abbrev pub text_of : Found → Option String
text_of (found (str t)) = some t
text_of x = none

-- Boolean checks of an object's shape: a text or nothing, a list or nothing, a map of texts or
-- nothing
abbrev pub is_text : Found → Bool
is_text (found (str t)) = true
is_text missing = true
is_text x = false

abbrev pub is_slice : Found → Bool
is_slice (found (slice vs)) = true
is_slice missing = true
is_slice x = false

unfoldable pub all_texts : Fields → Bool
all_texts end = true
all_texts (field k v fs) = is_text (found v) && all_texts fs

abbrev pub is_text_map : Found → Bool
is_text_map (found (object fs)) = all_texts fs
is_text_map missing = true
is_text_map x = false
