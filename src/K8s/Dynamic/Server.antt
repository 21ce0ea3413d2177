-- ===== src/K8s/Dynamic/Server.antt =====
-- What the dynamic client relies on of the API server, as its documentation has it, in terms of the
-- objects of the namespace. An object that is accepted keeps its labels and annotations (no
-- admission hook rewrites them), a patch is a merge patch but for the fields that the server itself
-- maintains, and a delete of a claim removes it (claims carry no finalizers). A write that fails
-- may have had its effect; the timestamps and the status of claims are the controller's.
use hermes_cluster.Base.{
  String, ◌≡◌, Bool, true, false, ◌||◌, Option, none, some, List, [], ◌∷◌, ◌==◌, ◌⊎◌,
}
use hermes_cluster.Base.Errors.{Err, errors_is, not_found}
use hermes_cluster.Base.Exec.{ok, err}
use hermes_cluster.K8s.Value.{
  Value, str, object, Fields, Found, found, missing, child, at, is_text, is_slice, is_text_map,
}
use hermes_cluster.K8s.Value.Merge.{merge}
use hermes_cluster.K8s.Unstructured.Access.{meta}
use hermes_cluster.K8s.Dynamic.{Resource, ListOptions, DynamicClient}

-- the schema of the custom resources, as far as the program reads them
pub record ClaimSchema (name : String) (u : Value) : Type 0 where
  pub fields : Fields
  pub metadata : Fields
  pub is_object : u ≡ object fields
  pub has_metadata : child "metadata" (found (object fields)) ≡ found (object metadata)
  pub named : meta "name" u ≡ found (str name)
  pub labels : is_text_map (meta "labels" u) ≡ true
  pub annotations : is_text_map (meta "annotations" u) ≡ true
  pub sandbox : is_text (at ("status" ∷ "sandbox" ∷ "name" ∷ []) (found u)) ≡ true

pub record SandboxSchema (name : String) (u : Value) : Type 0 where
  pub fields : Fields
  pub is_object : u ≡ object fields
  pub named : meta "name" u ≡ found (str name)
  pub mode : is_text (at ("spec" ∷ "operatingMode" ∷ []) (found u)) ≡ true
  pub fqdn : is_text (at ("status" ∷ "serviceFQDN" ∷ []) (found u)) ≡ true
  pub selector : is_text (at ("status" ∷ "selector" ∷ []) (found u)) ≡ true
  pub conditions : is_slice (at ("status" ∷ "conditions" ∷ []) (found u)) ≡ true

abbrev pub label : String → Value → Found
label key u = at ("metadata" ∷ "labels" ∷ key ∷ []) (found u)

abbrev pub annotation : String → Value → Found
annotation key u = at ("metadata" ∷ "annotations" ∷ key ∷ []) (found u)

-- what is stored of an object that was sent
pub record Accepted (sent stored : Value) : Type 0 where
  pub labels : (key : String) → label key stored ≡ label key sent
  pub annotations : (key : String) → annotation key stored ≡ annotation key sent
  pub not_deleted : meta "deletionTimestamp" stored ≡ missing

-- the fields of the metadata that the server maintains
abbrev pub is_maintained : String → Bool
is_maintained key = key == "resourceVersion" || key == "generation" || key == "managedFields"

-- what is stored after a merge patch, at the paths that the server does not maintain
pub record Merged (doc old new : Value) : Type 0 where
  pub outside :
      (key : String) (path : List String)
      → (key == "metadata") ≡ false
      → at (key ∷ path) (found new) ≡ at (key ∷ path) (found (merge old doc))
  pub inside :
      (key : String) (path : List String)
      → is_maintained key ≡ false
      → at ("metadata" ∷ key ∷ path) (found new)
        ≡ at ("metadata" ∷ key ∷ path) (found (merge old doc))

-- `objects s gvr name` is the object in the client's namespace, and `IsValid` that the objects
-- satisfy their schemas.
pub record Serves {S : Type 0} (c : DynamicClient S)
    (objects : S → Resource → String → Option Value) (IsValid : S → Type 0) : Type 0 where
  pub claim_schema :
      (s : S) (n : String) (u : Value)
      → IsValid s
      → objects s c.claim_gvr n ≡ some u
      → ClaimSchema n u
  pub sandbox_schema :
      (s : S) (n : String) (u : Value)
      → IsValid s
      → objects s c.sbox_gvr n ≡ some u
      → SandboxSchema n u
  pub get-valid :
      (g : Resource) (n : String) (s : S) → IsValid s → IsValid (c.api.get g c.namespace n s).1
  pub get-objects :
      (g : Resource) (n : String) (s : S) → objects (c.api.get g c.namespace n s).1 ≡ objects s
  pub get-found :
      (g : Resource) (n : String) (s : S) (u : Value)
      → (c.api.get g c.namespace n s).0 ≡ ok u
      → objects s g n ≡ some u
  pub get-missing :
      (g : Resource) (n : String) (s : S) (e : Err)
      → (c.api.get g c.namespace n s).0 ≡ err e
      → c.api.is_not_found e ≡ true
      → objects s g n ≡ none
  -- the errors of the server are none of the program's own
  pub get-foreign :
      (g : Resource) (n : String) (s : S) (e : Err)
      → (c.api.get g c.namespace n s).0 ≡ err e
      → errors_is e not_found ≡ false
  pub list-valid :
      (g : Resource) (o : ListOptions) (s : S)
      → IsValid s
      → IsValid (c.api.list g c.namespace o s).1
  pub list-objects :
      (g : Resource) (o : ListOptions) (s : S)
      → objects (c.api.list g c.namespace o s).1 ≡ objects s
  pub create-IsValid :
      (g : Resource) (u : Value) (s : S) → IsValid s → IsValid (c.api.create g c.namespace u s).1
  pub create-fresh :
      (g : Resource) (n : String) (u r : Value) (s : S)
      → meta "name" u ≡ found (str n)
      → (c.api.create g c.namespace u s).0 ≡ ok r
      → objects s g n ≡ none
  pub create-stored :
      (g : Resource) (n : String) (u r : Value) (s : S)
      → meta "name" u ≡ found (str n)
      → (c.api.create g c.namespace u s).0 ≡ ok r
      → (v : Value) × (objects (c.api.create g c.namespace u s).1 g n ≡ some v) × Accepted u v
  pub create-effect :
      (g : Resource) (n : String) (u : Value) (s : S)
      → meta "name" u ≡ found (str n)
      → (objects (c.api.create g c.namespace u s).1 g n ≡ objects s g n)
        ⊎ ((v : Value) × (objects (c.api.create g c.namespace u s).1 g n ≡ some v) × Accepted u v)
  pub create-others :
      (g : Resource) (n j : String) (u : Value) (s : S)
      → meta "name" u ≡ found (str n)
      → (n == j) ≡ false
      → objects (c.api.create g c.namespace u s).1 g j ≡ objects s g j
  pub create-elsewhere :
      (g h : Resource) (u : Value) (s : S)
      → (g.resource == h.resource) ≡ false
      → objects (c.api.create g c.namespace u s).1 h ≡ objects s h
  -- an object of that name is there, and stays as it is
  pub create-exists :
      (g : Resource) (n : String) (u : Value) (s : S) (e : Err)
      → meta "name" u ≡ found (str n)
      → (c.api.create g c.namespace u s).0 ≡ err e
      → c.api.is_already_exists e ≡ true
      → (v : Value) × (objects s g n ≡ some v)
        × (objects (c.api.create g c.namespace u s).1 g n ≡ some v)
  pub delete-IsValid :
      (g : Resource) (n : String) (s : S) → IsValid s → IsValid (c.api.delete g c.namespace n s).1
  pub delete-gone :
      (g : Resource) (n : String) (s : S)
      → (c.api.delete g c.namespace n s).0 ≡ ok tt
      → objects (c.api.delete g c.namespace n s).1 g n ≡ none
  pub delete-effect :
      (g : Resource) (n : String) (s : S)
      → (objects (c.api.delete g c.namespace n s).1 g n ≡ objects s g n)
        ⊎ (objects (c.api.delete g c.namespace n s).1 g n ≡ none)
  pub delete-others :
      (g : Resource) (n j : String) (s : S)
      → (n == j) ≡ false
      → objects (c.api.delete g c.namespace n s).1 g j ≡ objects s g j
  pub delete-missing :
      (g : Resource) (n : String) (s : S) (e : Err)
      → (c.api.delete g c.namespace n s).0 ≡ err e
      → c.api.is_not_found e ≡ true
      → (objects s g n ≡ none) × (objects (c.api.delete g c.namespace n s).1 ≡ objects s)
  pub delete-foreign :
      (g : Resource) (n : String) (s : S) (e : Err)
      → (c.api.delete g c.namespace n s).0 ≡ err e
      → errors_is e not_found ≡ false
  pub patch-IsValid :
      (g : Resource) (n : String) (doc : Value) (s : S)
      → IsValid s
      → IsValid (c.api.patch g c.namespace n doc s).1
  pub patch-merged :
      (g : Resource) (n : String) (doc r : Value) (s : S)
      → (c.api.patch g c.namespace n doc s).0 ≡ ok r
      → (u v : Value) × (objects s g n ≡ some u)
        × (objects (c.api.patch g c.namespace n doc s).1 g n ≡ some v)
        × Merged doc u v
  pub patch-effect :
      (g : Resource) (n : String) (doc : Value) (s : S)
      → (objects (c.api.patch g c.namespace n doc s).1 g n ≡ objects s g n)
        ⊎ ((u v : Value) × (objects s g n ≡ some u)
            × (objects (c.api.patch g c.namespace n doc s).1 g n ≡ some v)
            × Merged doc u v)
  pub patch-others :
      (g : Resource) (n j : String) (doc : Value) (s : S)
      → (n == j) ≡ false
      → objects (c.api.patch g c.namespace n doc s).1 g j ≡ objects s g j
  pub patch-elsewhere :
      (g h : Resource) (n : String) (doc : Value) (s : S)
      → (g.resource == h.resource) ≡ false
      → objects (c.api.patch g c.namespace n doc s).1 h ≡ objects s h
