-- ===== src/K8s/Dynamic.antt =====
-- lifecycle-manager/internal/k8s/dynamic.go: the client of a real cluster. client-go's dynamic
-- interface, the loading of its configuration and the accessors of apimachinery are parameters; the
-- state `S` is the cluster's. A context that quotes a name is the name alone.
pub mod Exposure
pub mod Server
pub mod Reads
pub mod Writes
pub mod Effects
pub mod Views
pub mod Exposed
pub mod Selector
pub mod Sound
use hermes_cluster.Base.{
  String, Bool, true, false, not, ◌&&◌, Option, none, some, List, [], ◌∷◌, ◌==◌, if◌then◌else◌,
}
use hermes_cluster.Base.Int.{ℤ, pos}
use hermes_cluster.Base.Text.{◌<>◌}
use hermes_cluster.Base.Dict.{Dict, lookup}
use hermes_cluster.Base.Errors.{Err, sentinel, wrap, not_found, already_exists}
use hermes_cluster.Base.Exec.{Exec, Result, ok, err, pure, raise, lift, attempt, ◌>>=◌, ◌>>◌}
use hermes_cluster.Session.{managed_label}
use hermes_cluster.K8s.{Claim, Sandbox, ClaimSpec}
use hermes_cluster.K8s.Value.{Value}
use hermes_cluster.K8s.Unstructured.{
  Accessors, resource_sandbox_claims, resource_sandboxes, new_claim_object, claim_from_unstructured,
  sandbox_from_unstructured, operating_mode_patch, annotations_patch,
}

pub record Options : Type 0 where
  pub namespace : String
  -- the group of sandboxes, and that of claims
  pub group : String
  pub ext_group : String
  pub version : String

-- schema.GroupVersionResource
pub record Resource : Type 0 where
  pub group : String
  pub version : String
  pub resource : String

-- the fields of metav1.ListOptions that the code sets
pub record ListOptions : Type 0 where
  pub label_selector : String
  pub limit : ℤ

-- dynamic.Interface, by resource and namespace, and the tests on its errors
pub record Api (S : Type 0) : Type 0 where
  pub create : Resource → String → Value → Exec S Value
  pub get : Resource → String → String → Exec S Value
  pub list : Resource → String → ListOptions → Exec S (List Value)
  pub delete : Resource → String → String → Exec S Unit
  pub patch : Resource → String → String → Value → Exec S Value
  pub is_not_found : Err → Bool
  pub is_already_exists : Err → Bool

pub record DynamicClient (S : Type 0) : Type 0 where
  pub api : Api S
  pub access : Accessors
  pub namespace : String
  pub claim_gvr : Resource
  pub sbox_gvr : Resource
  pub svc_gvr : Resource
  pub ing_gvr : Resource
  pub claim_api_version : String

abbrev pub resource_services : String
resource_services = "services"

abbrev pub resource_ingresses : String
resource_ingresses = "ingresses"

-- newWithInterface
abbrev pub new_with_interface : {S : Type 0} → Api S → Accessors → Options → DynamicClient S
new_with_interface dyn access opts = record {
  api = dyn;
  access = access;
  namespace = opts.namespace;
  claim_gvr = record {
    group = opts.ext_group;
    version = opts.version;
    resource = resource_sandbox_claims;
  };
  sbox_gvr = record { group = opts.group; version = opts.version; resource = resource_sandboxes };
  svc_gvr = record { group = ""; version = "v1"; resource = resource_services };
  ing_gvr = record { group = "networking.k8s.io"; version = "v1"; resource = resource_ingresses };
  claim_api_version = opts.ext_group <> "/" <> opts.version;
}

-- What NewDynamicClient calls: rest.InClusterConfig, os.Getenv("KUBECONFIG"), os.UserHomeDir,
-- filepath.Join, clientcmd.BuildConfigFromFlags and dynamic.NewForConfig.
pub record Loading (C S : Type 0) : Type 0 where
  pub in_cluster_config : Result C
  pub kubeconfig : String
  pub user_home_dir : Result String
  pub join : String → String → String → String
  pub build_config_from_flags : String → Result C
  pub new_for_config : C → Result (Api S)

module _ {C S : Type 0} (l : Loading C S) where
  -- the file that is read where there is no in-cluster configuration
  unfoldable pub kubeconfig_path : Err → Result String
  kubeconfig_path e =
      if l.kubeconfig == ""
      then elim l.user_home_dir [
        | err _ ↦ err (wrap "no in-cluster config and no home dir" e)
        | ok home ↦ ok (l.join home ".kube" "config")
      ]
      else ok l.kubeconfig

  unfoldable pub local_config : Result String → Result C
  local_config (err e) = err e
  local_config (ok path) = elim (l.build_config_from_flags path) [
    | err e ↦ err (wrap "neither in-cluster nor kubeconfig configuration available" e)
    | ok cfg ↦ ok cfg
  ]

  unfoldable pub config_of : Result C
  unfolding kubeconfig_path local_config
  config_of = elim l.in_cluster_config [
    | ok cfg ↦ ok cfg
    | err e ↦ local_config (kubeconfig_path e)
  ]

  unfoldable pub connected : Accessors → Options → Result C → Result (DynamicClient S)
  connected access opts (err e) = err e
  connected access opts (ok cfg) = elim (l.new_for_config cfg) [
    | err e ↦ err e
    | ok dyn ↦ ok (new_with_interface dyn access opts)
  ]

  -- NewDynamicClient
  unfoldable pub new_dynamic_client : Accessors → Options → Result (DynamicClient S)
  unfolding config_of connected
  new_dynamic_client access opts = connected access opts config_of

-- m[key], where a missing key reads as the empty text
abbrev pub value_of : String → Dict String → String
value_of key m = elim (lookup key m) [ none ↦ "" | some v ↦ v ]

-- the selector of ListClaims
abbrev pub managed_only : ListOptions
managed_only = record { label_selector = managed_label <> "=true"; limit = pos 0 }

module _ {S : Type 0} (c : DynamicClient S) where
  -- an error of the server, its "not found" replaced by the program's own
  unfoldable pub or_not_found : {A : Type 0} → String → Err → Exec S A
  or_not_found name e =
      if c.api.is_not_found e then raise (wrap name (sentinel not_found)) else raise e

  unfoldable pub create_claim : ClaimSpec → Exec S Unit
  create_claim spec = do
    x ← attempt (
        c.api.create c.claim_gvr c.namespace
          (new_claim_object c.claim_api_version c.namespace spec managed_label))
    elim x [
      | ok _ ↦ pure tt
      | err e ↦
          if c.api.is_already_exists e
          then raise (wrap spec.name (sentinel already_exists))
          else raise e
    ]

  -- the guard of GetClaim, by annotation or by label
  unfoldable pub is_managed : Value → Claim → Bool
  is_managed u claim = not (
      value_of managed_label claim.annotations == ""
      && not (value_of managed_label (c.access.get_labels u) == "true"))

  unfoldable pub managed_claim : String → Value → Result Claim → Exec S Claim
  unfolding is_managed
  managed_claim name u (err e) = raise e
  managed_claim name u (ok claim) =
      if is_managed u claim then pure claim else raise (wrap name (sentinel not_found))

  unfoldable pub get_claim : String → Exec S Claim
  unfolding or_not_found managed_claim
  get_claim name = do
    x ← attempt (c.api.get c.claim_gvr c.namespace name)
    elim x [
      | err e ↦ or_not_found name e
      | ok u ↦ managed_claim name u (claim_from_unstructured c.access u)
    ]

  -- the loop of ListClaims, which ends at the first object that it cannot read
  unfoldable pub claims_from : List Value → Exec S (List Claim)
  claims_from [] = pure []
  claims_from (u ∷ us) = do
    claim ← lift (claim_from_unstructured c.access u)
    claims ← claims_from us
    pure (claim ∷ claims)

  unfoldable pub list_claims : Exec S (List Claim)
  unfolding claims_from
  list_claims = do us ← c.api.list c.claim_gvr c.namespace managed_only; claims_from us

  unfoldable pub delete_claim : String → Exec S Unit
  unfolding or_not_found
  delete_claim name = do
    x ← attempt (c.api.delete c.claim_gvr c.namespace name)
    elim x [ ok _ ↦ pure tt | err e ↦ or_not_found name e ]

  unfoldable pub patch_claim_annotations : String → Dict (Option String) → Exec S Unit
  unfolding or_not_found
  patch_claim_annotations name annotations = do
    x ← attempt (c.api.patch c.claim_gvr c.namespace name (annotations_patch annotations))
    elim x [ ok _ ↦ pure tt | err e ↦ or_not_found name e ]

  unfoldable pub get_sandbox : String → Exec S Sandbox
  unfolding or_not_found
  get_sandbox name = do
    x ← attempt (c.api.get c.sbox_gvr c.namespace name)
    elim x [ err e ↦ or_not_found name e | ok u ↦ lift (sandbox_from_unstructured c.access u) ]

  unfoldable pub patch_sandbox_operating_mode : String → String → Exec S Unit
  unfolding or_not_found
  patch_sandbox_operating_mode name mode = do
    x ← attempt (c.api.patch c.sbox_gvr c.namespace name (operating_mode_patch mode))
    elim x [ ok _ ↦ pure tt | err e ↦ or_not_found name e ]

  unfoldable pub ping : Exec S Unit
  ping = do
    c.api.list c.claim_gvr c.namespace (record { label_selector = ""; limit = pos 1 })
    pure tt
