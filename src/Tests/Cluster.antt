-- ===== src/Tests/Cluster.antt =====
-- Accessors that behave as documented, on which the dynamic client is run.
pub mod Store
pub mod Serving
use text.Mathlib.TextPositions.{eq_refl}
use hermes_cluster.Base.{
  ℕ, eqb, String, ◌≡◌, refl, Bool, true, false, ◌&&◌, ◌⊎◌, inl, inr, Option, none, some, List, [],
  ◌∷◌, arith, ◌==◌, eq_iff, if◌then◌else◌, ap, subst, Bool-cases, Option-cases,
}
use hermes_cluster.Base.Int.{ℤ, pos}
use hermes_cluster.Base.Dict.{Dict, lookup}
use hermes_cluster.Base.Errors.{Err, Sentinel, api_error, errors_is, not_found}
use hermes_cluster.Base.Exec.{Exec, Result, ok, err}
use hermes_cluster.Clock.{Time, zero_time}
use hermes_cluster.K8s.Value.{
  Value, null, bool, int, str, slice, object, Items, nil, cons, Fields, end, field, get_field,
  Found, found, missing, mistyped, or_missing, child, at, text_of, is_text, is_slice, is_text_map,
  all_texts,
}
use hermes_cluster.K8s.Value.Merge.{merge}
use hermes_cluster.K8s.Unstructured.{Accessors, or_empty}
use hermes_cluster.K8s.Unstructured.Access.{Reads, meta}
use hermes_cluster.K8s.Dynamic.{
  Resource, ListOptions, Options, Api, DynamicClient, new_with_interface,
}
use hermes_cluster.K8s.Dynamic.Server.{Serves, ClaimSchema, SandboxSchema, Accepted, Merged}

-- the texts of a map
abbrev pub texts : Fields → Dict String
texts end = []
texts (field k (str t) fs) = (k, t) ∷ texts fs
texts (field k v fs) = texts fs

pub lookup-texts :
    (k : String) (fs : Fields)
    → all_texts fs ≡ true
    → lookup k (texts fs) ≡ text_of (or_missing (get_field k fs))
unfolding lookup get_field all_texts or_missing
lookup-texts k end h = refl
lookup-texts k (field j (str t) fs) h = let later = lookup-texts k fs in ground arith
lookup-texts k (field j v fs) h = cc

abbrev pub text_map : Found → Dict String
text_map (found (object fs)) = texts fs
text_map x = []

pub lookup-text_map :
    (k : String) (x : Found) → is_text_map x ≡ true → lookup k (text_map x) ≡ text_of (child k x)
unfolding child lookup
lookup-text_map k (found (object fs)) h = lookup-texts k fs h
lookup-text_map k missing h = refl
lookup-text_map k x h = cc

abbrev pub time_of : Found → Option Time
time_of (found (int t)) = some t
time_of x = none

abbrev pub string_at : Found → Result (String × Bool)
string_at (found (str t)) = ok (t, true)
string_at missing = ok ("", false)
string_at x = err (api_error 422 "")

abbrev pub slice_at : Found → Result (Items × Bool)
slice_at (found (slice vs)) = ok (vs, true)
slice_at missing = ok (nil, false)
slice_at x = err (api_error 422 "")

pub string_at-foreign :
    (x : Found) (e : Err) → string_at x ≡ err e → (s : Sentinel) → errors_is e s ≡ false
unfolding errors_is
string_at-foreign (found (str t)) e h s = cc
string_at-foreign missing e h s = cc
string_at-foreign x e h s = ground arith

abbrev pub accessors : Accessors
accessors = record {
  get_name = λ u. or_empty (text_of (meta "name" u));
  get_uid = λ u. or_empty (text_of (meta "uid" u));
  get_labels = λ u. text_map (meta "labels" u);
  get_annotations = λ u. text_map (meta "annotations" u);
  get_creation_timestamp =
      λ u. elim (time_of (meta "creationTimestamp" u)) [ none ↦ zero_time | some t ↦ t ];
  get_deletion_timestamp = λ u. time_of (meta "deletionTimestamp" u);
  nested_string = λ u path. string_at (at path (found u));
  nested_slice = λ u path. slice_at (at path (found u));
}

pub accessors-Reads : Reads accessors
accessors-Reads = record {
  name = λ u t h. ap (λ x. or_empty (text_of x)) h;
  label = λ u k h. lookup-text_map k (meta "labels" u) h;
  annotation = λ u k h. lookup-text_map k (meta "annotations" u) h;
  creation = λ u v h. ap (λ x. elim (time_of x) [ none ↦ zero_time | some t ↦ t ]) h;
  deletion = λ u v h. ap time_of h;
  not_deleted = λ u h. ap time_of h;
  string-found = λ u path t h. ap string_at h;
  string-missing = λ u path h. ap string_at h;
  slice-found = λ u path vs h. ap slice_at h;
  slice-missing = λ u path h. ap slice_at h;
  string-foreign = λ u path e s h. string_at-foreign (at path (found u)) e h s;
}
