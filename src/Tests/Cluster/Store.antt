-- ===== src/Tests/Cluster/Store.antt =====
-- A small API server: its objects by resource and name.

use hermes_cluster.Base.{
  ℕ, eqb, String, ◌≡◌, refl, Bool, true, false, ◌&&◌, Option, none, some, [], ◌∷◌, arith, ◌==◌,
  eq_iff, if◌then◌else◌, ap, subst,
}
use hermes_cluster.Base.Errors.{Err, api_error}
use hermes_cluster.Base.Exec.{Exec, ok, err}
use hermes_cluster.K8s.Value.{
  Value, str, object, Fields, Found, found, missing, child, at, text_of, is_text, is_slice,
  is_text_map,
}
use hermes_cluster.K8s.Value.Merge.{merge}
use hermes_cluster.K8s.Unstructured.Access.{meta}
use hermes_cluster.K8s.Dynamic.{Resource, Options, Api}
use hermes_cluster.K8s.Dynamic.Server.{ClaimSchema, SandboxSchema}

-- The store: the objects by resource and name. An object is admitted if it satisfies its schema.
abbrev pub Cluster : Type 0
Cluster = String → String → Option Value

abbrev pub has_name : String → Value → Bool
has_name n u = elim (text_of (meta "name" u)) [ none ↦ false | some t ↦ t == n ]

abbrev pub is_object : Found → Bool
is_object (found (object fs)) = true
is_object x = false

unfoldable pub admits_claim : String → Value → Bool
admits_claim n u =
    is_object (found u)
    && is_object (child "metadata" (found u))
    && has_name n u
    && is_text_map (meta "labels" u)
    && is_text_map (meta "annotations" u)
    && is_text (at ("status" ∷ "sandbox" ∷ "name" ∷ []) (found u))

unfoldable pub admits_sandbox : String → Value → Bool
admits_sandbox n u =
    is_object (found u)
    && has_name n u
    && is_text (at ("spec" ∷ "operatingMode" ∷ []) (found u))
    && is_text (at ("status" ∷ "serviceFQDN" ∷ []) (found u))
    && is_text (at ("status" ∷ "selector" ∷ []) (found u))
    && is_slice (at ("status" ∷ "conditions" ∷ []) (found u))

unfoldable pub admits : String → String → Value → Bool
admits resource n u =
    if resource == "sandboxclaims"
    then admits_claim n u
    else if resource == "sandboxes"
    then admits_sandbox n u
    else true

unfoldable pub put : String → String → Option Value → Cluster → Cluster
put resource n new s r m = if resource == r && n == m then new else s r m

abbrev pub is_missing : Found → Bool
is_missing missing = true
is_missing x = false

unfoldable pub create_named : Resource → Value → Option String → Exec Cluster Value
unfolding admits put
create_named g u none s = (err (api_error 422 ""), s)
create_named g u (some n) s = elim (s g.resource n) [
  | some old ↦ (err (api_error 409 ""), s)
  | none ↦
      if admits g.resource n u && is_missing (meta "deletionTimestamp" u)
      then (ok u, put g.resource n (some u) s)
      else (err (api_error 422 ""), s)
]

unfoldable pub patch : Resource → String → String → Value → Exec Cluster Value
unfolding admits put merge
patch g namespace n doc s = elim (s g.resource n) [
  | none ↦ (err (api_error 404 ""), s)
  | some old ↦
      if admits g.resource n (merge old doc)
      then (ok (merge old doc), put g.resource n (some (merge old doc)) s)
      else (err (api_error 422 ""), s)
]

unfoldable pub delete : Resource → String → String → Exec Cluster Unit
unfolding put
delete g namespace n s = elim (s g.resource n) [
  | none ↦ (err (api_error 404 ""), s)
  | some old ↦ (ok tt, put g.resource n none s)
]

unfoldable pub get : Resource → String → String → Exec Cluster Value
get g namespace n s = elim (s g.resource n) [
  | none ↦ (err (api_error 404 ""), s)
  | some u ↦ (ok u, s)
]

abbrev pub says : ℕ → Err → Bool
says code (api_error c m) = eqb c code
says code e = false

abbrev pub api : Api Cluster
api = record {
  create = λ g namespace u. create_named g u (text_of (meta "name" u));
  get = get;
  list = λ g namespace o s. (ok [], s);
  delete = delete;
  patch = patch;
  is_not_found = says 404;
  is_already_exists = says 409;
}

abbrev pub options : Options
options = record {
  namespace = "hermes";
  group = "agents.x-k8s.io";
  ext_group = "extensions.agents.x-k8s.io";
  version = "v1beta1";
}

abbrev pub objects : Cluster → Resource → String → Option Value
objects s g n = s g.resource n

pub record IsValid (s : Cluster) : Type 0 where
  pub claims : (n : String) (u : Value) → s "sandboxclaims" n ≡ some u → admits_claim n u ≡ true
  pub sandboxes : (n : String) (u : Value) → s "sandboxes" n ≡ some u → admits_sandbox n u ≡ true

pub put-IsValid :
    (r n : String) (new : Option Value) (s : Cluster)
    → ((u : Value) → new ≡ some u → admits r n u ≡ true)
    → IsValid s
    → IsValid (put r n new s)
unfolding put admits
put-IsValid r n new s fits valid = record {
  claims = λ m u h. ground (arith, eq_iff r "sandboxclaims", eq_iff n m, valid.claims m u, fits u);
  sandboxes = λ m u h. ground (
    arith,
    eq_iff r "sandboxclaims",
    eq_iff r "sandboxes",
    eq_iff "sandboxes" "sandboxclaims",
    eq_iff n m,
    valid.sandboxes m u,
    fits u,
  );
}

pub is_object-found : (x : Found) → is_object x ≡ true → (fs : Fields) × (x ≡ found (object fs))
is_object-found (found (object fs)) h = (fs, refl)
is_object-found x h = cc

pub has_name-found : (n : String) (u : Value) → has_name n u ≡ true → meta "name" u ≡ found (str n)
has_name-found n u h = named_text (meta "name" u) h
  where
    named_text :
        (x : Found)
        → (elim (text_of x) [ none ↦ false | some t ↦ t == n ]) ≡ true
        → x ≡ found (str n)
    named_text (found (str t)) h = ap (λ k. found (str k)) ((eq_iff t n).0 h)
    named_text x h = cc

pub claim_schema : (n : String) (u : Value) → admits_claim n u ≡ true → ClaimSchema n u
unfolding admits_claim
claim_schema n u h =
    let (fs, own) = is_object-found (found u) (ground arith) in
    let (ms, inner) = is_object-found (child "metadata" (found u)) (ground arith) in
    let same : u ≡ object fs = cc in
    record {
      fields = fs;
      metadata = ms;
      is_object = same;
      has_metadata = subst (λ x. child "metadata" (found x) ≡ found (object ms)) same inner;
      named = has_name-found n u (ground arith);
      labels = ground arith;
      annotations = ground arith;
      sandbox = ground arith;
    }

pub sandbox_schema : (n : String) (u : Value) → admits_sandbox n u ≡ true → SandboxSchema n u
unfolding admits_sandbox
sandbox_schema n u h =
    let (fs, own) = is_object-found (found u) (ground arith) in
    record {
      fields = fs;
      is_object = cc;
      named = has_name-found n u (ground arith);
      mode = ground arith;
      fqdn = ground arith;
      selector = ground arith;
      conditions = ground arith;
    }

pub some_injective : (u v : Value) → some u ≡ some v → u ≡ v
some_injective u v h = cc

pub is_missing-missing : (x : Found) → is_missing x ≡ true → x ≡ missing
is_missing-missing missing h = refl
is_missing-missing x h = cc
