-- ===== src/K8s/Unstructured/Access.antt =====
-- What the code relies on of apimachinery's accessors, as they are documented: each reads the
-- object at the path of its name.
use hermes_cluster.Base.{String, ◌≡◌, true, false, none, List, [], ◌∷◌}
use hermes_cluster.Base.Dict.{lookup}
use hermes_cluster.Base.Errors.{Err, Sentinel, errors_is}
use hermes_cluster.Base.Exec.{ok, err}
use hermes_cluster.K8s.Value.{
  Value, str, slice, Items, nil, Found, found, missing, at, text_of, is_text_map,
}
use hermes_cluster.K8s.Unstructured.{Accessors}

abbrev pub meta : String → Value → Found
meta key u = at ("metadata" ∷ key ∷ []) (found u)

pub record Reads (access : Accessors) : Type 0 where
  pub name : (u : Value) (t : String) → meta "name" u ≡ found (str t) → access.get_name u ≡ t
  -- a map of labels or annotations is read where all of its values are texts
  pub label :
      (u : Value) (k : String)
      → is_text_map (meta "labels" u) ≡ true
      → lookup k (access.get_labels u) ≡ text_of (at ("metadata" ∷ "labels" ∷ k ∷ []) (found u))
  pub annotation :
      (u : Value) (k : String)
      → is_text_map (meta "annotations" u) ≡ true
      → lookup k (access.get_annotations u)
        ≡ text_of (at ("metadata" ∷ "annotations" ∷ k ∷ []) (found u))
  pub creation :
      (u v : Value)
      → meta "creationTimestamp" u ≡ meta "creationTimestamp" v
      → access.get_creation_timestamp u ≡ access.get_creation_timestamp v
  pub deletion :
      (u v : Value)
      → meta "deletionTimestamp" u ≡ meta "deletionTimestamp" v
      → access.get_deletion_timestamp u ≡ access.get_deletion_timestamp v
  pub not_deleted :
      (u : Value) → meta "deletionTimestamp" u ≡ missing → access.get_deletion_timestamp u ≡ none
  pub string-found :
      (u : Value) (path : List String) (t : String)
      → at path (found u) ≡ found (str t)
      → access.nested_string u path ≡ ok (t, true)
  pub string-missing :
      (u : Value) (path : List String)
      → at path (found u) ≡ missing
      → access.nested_string u path ≡ ok ("", false)
  pub slice-found :
      (u : Value) (path : List String) (vs : Items)
      → at path (found u) ≡ found (slice vs)
      → access.nested_slice u path ≡ ok (vs, true)
  pub slice-missing :
      (u : Value) (path : List String)
      → at path (found u) ≡ missing
      → access.nested_slice u path ≡ ok (nil, false)
  -- the errors of the library are none of the program's own
  pub string-foreign :
      (u : Value) (path : List String) (e : Err) (s : Sentinel)
      → access.nested_string u path ≡ err e
      → errors_is e s ≡ false
