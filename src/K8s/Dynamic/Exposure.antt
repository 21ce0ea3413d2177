-- ===== src/K8s/Dynamic/Exposure.antt =====
-- lifecycle-manager/internal/k8s/exposure.go: the Service of a session, and the Ingress of its
-- dashboard, owned by its claim.
use hermes_cluster.Base.{String, Option, none, some, List, [], ◌∷◌, ◌==◌, if◌then◌else◌}
use hermes_cluster.Base.Int.{ℤ}
use hermes_cluster.Base.Text.{split, cut, trim_space, trim_left, trim_right}
use hermes_cluster.Base.Errors.{Err, other, wrap}
use hermes_cluster.Base.Exec.{Exec, ok, err, pure, raise, attempt, ◌>>=◌, ◌>>◌}
use hermes_cluster.K8s.{ExposureSpec, Client}
use hermes_cluster.K8s.Value.{
  Value, int, str, slice, object, nil, cons, Fields, end, field, set_field,
}
use hermes_cluster.K8s.Unstructured.{kind_sandbox_claim}
use hermes_cluster.K8s.Dynamic.{
  Resource, DynamicClient, create_claim, get_claim, list_claims, delete_claim,
  patch_claim_annotations, get_sandbox, patch_sandbox_operating_mode, ping,
}

abbrev pub path_password_login : String
path_password_login = "/auth/password-login"

-- one turn of the loop of parseSelector, with what `strings.Cut` answered
unfoldable pub add_pair : Option (String × String) → Fields → Fields
add_pair none out = out
add_pair (some (k, v)) out = if k == "" then out else set_field k (str v) out

unfoldable pub add_pairs : List String → Fields → Fields
unfolding add_pair
add_pairs [] out = out
add_pairs (pair ∷ pairs) out = add_pairs pairs (add_pair (cut b'=' (trim_space pair)) out)

-- parseSelector
unfoldable pub parse_selector : String → Fields
unfolding add_pairs split cut trim_left trim_right
parse_selector s = add_pairs (split b',' s) end

abbrev one : Value → Value
one v = slice (cons v nil)

-- the metadata that both objects share
unfoldable pub owned_metadata : String → String → ExposureSpec → Value
owned_metadata api_version namespace spec =
    let owner = object (
      field "apiVersion" (str api_version) (
        field "kind" (str kind_sandbox_claim)
          (field "name" (str spec.session_name) (field "uid" (str spec.owner_uid) end)))) in
    object (
      field "name" (str spec.session_name)
        (field "namespace" (str namespace) (field "ownerReferences" (one owner) end)))

unfoldable pub service_object : String → String → ExposureSpec → Value
unfolding owned_metadata parse_selector
service_object api_version namespace spec =
    let port = field "port" (int spec.port) (field "targetPort" (int spec.port) end) in
    object (
      field "apiVersion" (str "v1") (
        field "kind" (str "Service") (
          field "metadata" (owned_metadata api_version namespace spec) (
            field "spec"
              (object (
                field "selector" (object (parse_selector spec.selector))
                  (field "ports" (one (object port)) end)))
              end))))

-- a path of the Ingress and the service that it leads to
unfoldable pub ingress_path : String → String → ℤ → Value
ingress_path path service port =
    let target =
      field "name" (str service) (field "port" (object (field "number" (int port) end)) end) in
    object (
      field "path" (str path) (
        field "pathType" (str "Prefix")
          (field "backend" (object (field "service" (object target) end)) end)))

-- the rule of the Ingress: the login path leads to the deny service, all else to the session's
unfoldable pub ingress_rule : ExposureSpec → Value
unfolding ingress_path
ingress_rule spec =
    let paths = slice (
      cons (ingress_path path_password_login spec.deny_service spec.port)
        (cons (ingress_path "/" spec.session_name spec.port) nil)) in
    object (field "host" (str spec.host) (field "http" (object (field "paths" paths end)) end))

unfoldable pub ingress_object : String → String → ExposureSpec → Value
unfolding owned_metadata ingress_rule
ingress_object api_version namespace spec =
    let tls = field "hosts" (one (str spec.host)) (field "secretName" (str spec.tls_secret) end) in
    object (
      field "apiVersion" (str "networking.k8s.io/v1") (
        field "kind" (str "Ingress") (
          field "metadata" (owned_metadata api_version namespace spec) (
            field "spec"
              (object (
                field "ingressClassName" (str spec.ingress_class)
                  (field "tls" (one (object tls)) (field "rules" (one (ingress_rule spec)) end))))
              end))))

module _ {S : Type 0} (c : DynamicClient S) where
  -- a Create whose object may be there already
  unfoldable pub ensure : Resource → Value → (Err → Err) → Exec S Unit
  ensure gvr obj context = do
    x ← attempt (c.api.create gvr c.namespace obj)
    elim x [
      | ok _ ↦ pure tt
      | err e ↦ if c.api.is_already_exists e then pure tt else raise (context e)
    ]

  unfoldable pub ensure_service : ExposureSpec → Exec S Unit
  unfolding ensure
  ensure_service spec =
      ensure c.svc_gvr (service_object c.claim_api_version c.namespace spec)
        (λ e. wrap spec.session_name (wrap "service" e))

  unfoldable pub ensure_ingress : ExposureSpec → Exec S Unit
  unfolding ensure
  ensure_ingress spec =
      if spec.host == ""
      then pure tt
      else ensure c.ing_gvr (ingress_object c.claim_api_version c.namespace spec)
          (λ e. wrap spec.session_name (wrap "ingress" e))

  -- EnsureExposure
  unfoldable pub ensure_exposure : ExposureSpec → Exec S Unit
  unfolding ensure_service ensure_ingress
  ensure_exposure spec =
      if spec.selector == ""
      then raise (wrap spec.session_name (other "empty selector"))
      else (do ensure_service spec; ensure_ingress spec)

  abbrev pub dynamic_client : Client S
  dynamic_client = record {
    create_claim = create_claim c;
    get_claim = get_claim c;
    list_claims = list_claims c;
    delete_claim = delete_claim c;
    patch_claim_annotations = patch_claim_annotations c;
    get_sandbox = get_sandbox c;
    patch_sandbox_operating_mode = patch_sandbox_operating_mode c;
    ensure_exposure = ensure_exposure;
    ping = ping c;
  }
