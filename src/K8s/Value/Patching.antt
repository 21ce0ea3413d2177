-- ===== src/K8s/Value/Patching.antt =====
-- What a merge patch leaves at the paths that the program reads.
use text.Mathlib.TextPositions.{eq_refl}
use hermes_cluster.Base.{
  String, ◌≡◌, refl, false, Option, none, some, [], ◌∷◌, arith, ◌==◌, if◌then◌else◌,
}
use hermes_cluster.Base.Dict.{Dict, lookup}
use hermes_cluster.K8s.Contract.{patched}
use hermes_cluster.K8s.Value.{
  Value, null, str, object, Fields, end, field, get_field, set_field, remove_field,
  get_field-set_field, get_field-remove_field, found, or_missing, child, text_of,
}
use hermes_cluster.K8s.Value.Merge.{merge, merge_fields, put, fields_of, or_null}
use hermes_cluster.K8s.Unstructured.{patch_fields, annotations_patch, operating_mode_patch}

-- the text of a field
abbrev text_at : String → Fields → Option String
text_at key fs = text_of (or_missing (get_field key fs))

text_at-set_field :
    (set read t : String) (fs : Fields)
    → text_at read (set_field set (str t) fs) ≡ (if set == read then some t else text_at read fs)
unfolding or_missing
text_at-set_field set read t fs = ground (arith, get_field-set_field set read (str t) fs)

text_at-remove_field :
    (key read : String) (fs : Fields)
    → text_at read (remove_field key fs) ≡ (if key == read then none else text_at read fs)
unfolding or_missing
text_at-remove_field key read fs = ground (arith, get_field-remove_field key read fs)

-- Merging annotations: a text of the patch is stored, a null removes the key.
pub text_at-merge_fields :
    (key : String) (patch : Dict (Option String)) (fs : Fields)
    → text_of (or_missing (get_field key (merge_fields fs (patch_fields patch))))
      ≡ patched (lookup key patch) (text_of (or_missing (get_field key fs)))
unfolding merge patch_fields lookup
text_at-merge_fields key [] fs = refl
text_at-merge_fields key ((k, none) ∷ patch) fs =
    let merged = text_at-merge_fields key patch fs in
    ground (arith, text_at-remove_field k key (merge_fields fs (patch_fields patch)))
text_at-merge_fields key ((k, some v) ∷ patch) fs =
    let merged = text_at-merge_fields key patch fs in
    ground (arith, text_at-set_field k key v (merge_fields fs (patch_fields patch)))

-- a field that is no map counts as an empty one
text_at-fields_of :
    (key name : String) (ms : Fields)
    → text_at key (fields_of (or_null (get_field name ms)))
      ≡ text_of (child key (or_missing (get_field name ms)))
unfolding fields_of or_null or_missing child get_field
text_at-fields_of key name ms = ground arith

get_field-put_other :
    (k other : String) (w merged : Value) (fs : Fields)
    → (k == other) ≡ false
    → get_field other (put k w merged fs) ≡ get_field other fs
unfolding merge
get_field-put_other k other null merged fs d = rw (get_field-remove_field k other fs, d)
get_field-put_other k other w merged fs d = rw (get_field-set_field k other merged fs, d)

or_missing-found : (o : Option Value) (v : Value) → or_missing o ≡ found v → o ≡ some v
unfolding or_missing
or_missing-found o v h = ground arith

-- A patch of one member of a nested map, and what it leaves.
module _ (outer inner : String) (w : Value) where
  abbrev pub member : Value
  member = object (field outer (object (field inner w end)) end)

  pub child-merge_other :
      (fs : Fields) (other : String)
      → (outer == other) ≡ false
      → child other (found (merge (object fs) member)) ≡ child other (found (object fs))
  unfolding merge child or_missing
  child-merge_other fs other d = grind (arith, get_field-set_field)

  pub grandchild-merge_other :
      (fs ms : Fields) (other : String)
      → child outer (found (object fs)) ≡ found (object ms)
      → (inner == other) ≡ false
      → child other (child outer (found (merge (object fs) member)))
        ≡ child other (child outer (found (object fs)))
  unfolding merge child or_missing
  grandchild-merge_other fs ms other e d =
      let nested = or_missing-found (get_field outer fs) (object ms) e in
      let kept = get_field-put_other inner other w (merge (or_null (get_field inner ms)) w) ms d in
      ground (
        arith,
        eq_refl outer,
        get_field-set_field outer outer
            (object (put inner w (merge (or_null (get_field inner ms)) w) ms)) fs,
      )

-- Merging annotations into an object whose metadata is a map.
pub annotation-merge :
    (key : String) (patch : Dict (Option String)) (fs ms : Fields)
    → child "metadata" (found (object fs)) ≡ found (object ms)
    → text_of (
        child key (
          child "annotations"
            (child "metadata" (found (merge (object fs) (annotations_patch patch))))))
      ≡ patched (lookup key patch) (text_of (child key (child "annotations" (found (object ms)))))
unfolding merge child or_missing annotations_patch
annotation-merge key patch fs ms e =
    let nested = or_missing-found (get_field "metadata" fs) (object ms) e in
    let old = fields_of (or_null (get_field "annotations" ms)) in
    let new = object (merge_fields old (patch_fields patch)) in
    ground (
      arith,
      get_field-set_field "metadata" "metadata" (object (set_field "annotations" new ms)) fs,
      get_field-set_field "annotations" "annotations" new ms,
      text_at-merge_fields key patch old,
      text_at-fields_of key "annotations" ms,
    )

-- Setting the operating mode.
pub operating_mode-merge :
    (mode : String) (fs : Fields)
    → child "operatingMode" (child "spec" (found (merge (object fs) (operating_mode_patch mode))))
      ≡ found (str mode)
unfolding merge child or_missing operating_mode_patch
operating_mode-merge mode fs =
    let spec = set_field "operatingMode" (str mode) (fields_of (or_null (get_field "spec" fs))) in
    ground (
      arith,
      get_field-set_field "spec" "spec" (object spec) fs,
      get_field-set_field "operatingMode" "operatingMode" (str mode)
          (fields_of (or_null (get_field "spec" fs))),
    )
