-- ===== src/K8s/Unstructured.antt =====
-- lifecycle-manager/internal/k8s/unstructured.go: the objects of the agent-sandbox resources, built
-- and read. The accessors of `unstructured.Unstructured` come from apimachinery and are a parameter.
-- A patch is the document that its JSON bytes encode; both operating modes are texts that `%q` and
-- JSON print alike.
pub mod Access
pub mod Reading
pub mod RoundTrip
use hermes_cluster.Base.{
  String, Bool, true, false, Option, none, some, List, [], ◌∷◌, ◌==◌, if◌then◌else◌,
}
use hermes_cluster.Base.Text.{◌<>◌}
use hermes_cluster.Base.Dict.{Dict}
use hermes_cluster.Base.Errors.{wrap}
use hermes_cluster.Base.Exec.{Result, ok, err}
use hermes_cluster.Clock.Rfc3339
use hermes_cluster.Clock.{Time, zero_time}
use hermes_cluster.K8s.{Claim, Sandbox, ClaimSpec}
use hermes_cluster.K8s.Value.{
  Value, null, str, slice, object, Items, nil, cons, Fields, end, field, get_field, set_field,
}

-- What the code calls of apimachinery, and `time.Parse(time.RFC3339, text)`. A nested accessor
-- also says whether it found something.
pub record Accessors : Type 0 where
  pub get_name : Value → String
  pub get_uid : Value → String
  pub get_labels : Value → Dict String
  pub get_annotations : Value → Dict String
  pub get_creation_timestamp : Value → Time
  pub get_deletion_timestamp : Value → Option Time
  pub nested_string : Value → List String → Result (String × Bool)
  pub nested_slice : Value → List String → Result (Items × Bool)

abbrev pub kind_sandbox_claim : String
kind_sandbox_claim = "SandboxClaim"

abbrev pub resource_sandbox_claims : String
resource_sandbox_claims = "sandboxclaims"

abbrev pub resource_sandboxes : String
resource_sandboxes = "sandboxes"

abbrev pub condition_ready : String
condition_ready = "Ready"

abbrev pub condition_suspended : String
condition_suspended = "Suspended"

-- the loop that copies the annotations
unfoldable pub annotation_fields : Dict String → Fields
annotation_fields [] = end
annotation_fields ((k, v) ∷ rest) = set_field k (str v) (annotation_fields rest)

-- newClaimObject
unfoldable pub new_claim_object : String → String → ClaimSpec → String → Value
new_claim_object api_version namespace spec managed = object (
    field "apiVersion" (str api_version) (
      field "kind" (str kind_sandbox_claim) (
        field "metadata"
          (object (
            field "name" (str spec.name) (
              field "namespace" (str namespace) (
                field "labels" (object (field managed (str "true") end))
                  (field "annotations" (object (annotation_fields spec.annotations)) end)))))
          (field "spec"
            (object (field "warmPoolRef" (object (field "name" (str spec.warm_pool) end)) end))
            end))))

-- `fs[key].(string)`
unfoldable pub string_field : String → Fields → Option String
string_field key fs = elim (get_field key fs) [ some (str t) ↦ some t | _ ↦ none ]

abbrev pub or_empty : Option String → String
or_empty none = ""
or_empty (some t) = t

abbrev pub empty_sandbox : String → Sandbox
empty_sandbox name = record {
  name = name;
  operating_mode = "";
  ready = false;
  ready_changed = zero_time;
  suspended = false;
  service_fqdn = "";
  selector = "";
}

module _ (access : Accessors) where
  -- claimFromUnstructured: the claim but for its sandbox
  unfoldable pub bare_claim : Value → Claim
  bare_claim u = record {
    name = access.get_name u;
    uid = access.get_uid u;
    created_at = access.get_creation_timestamp u;
    annotations = access.get_annotations u;
    terminating = elim (access.get_deletion_timestamp u) [ none ↦ false | some t ↦ true ];
    sandbox_name = "";
  }

  unfoldable pub claim_from_unstructured : Value → Result Claim
  unfolding bare_claim
  claim_from_unstructured u = elim (access.nested_string u ("status" ∷ "sandbox" ∷ "name" ∷ [])) [
    | err e ↦ err (wrap ("claim " <> access.get_name u <> ": status.sandbox.name") e)
    | ok (name, is_found) ↦
        ok (if is_found then record (bare_claim u) { sandbox_name = name } else bare_claim u)
  ]

  -- the new ReadyChanged, where the condition has a time that can be read
  unfoldable pub ready_changed_after : Option String → Time → Time
  ready_changed_after none old = old
  ready_changed_after (some ts) old = elim (Rfc3339.parse ts) [ none ↦ old | some t ↦ t ]

  -- the `switch` on the type of a condition
  unfoldable pub read_condition : Fields → Sandbox → Sandbox
  unfolding string_field ready_changed_after
  read_condition cond s =
      let kind = or_empty (string_field "type" cond) in
      let status = or_empty (string_field "status" cond) in
      if kind == condition_ready
      then record s {
        ready = status == "True";
        ready_changed =
            ready_changed_after (string_field "lastTransitionTime" cond) s.ready_changed;
      }
      else if kind == condition_suspended
      then record s { suspended = status == "True" }
      else s

  -- the loop over the conditions: one that is no map is passed over
  unfoldable pub read_conditions : Items → Sandbox → Sandbox
  unfolding read_condition
  read_conditions nil s = s
  read_conditions (cons (object cond) rest) s = read_conditions rest (read_condition cond s)
  read_conditions (cons v rest) s = read_conditions rest s

  -- the steps of sandboxFromUnstructured, from the last to the first
  unfoldable pub with_conditions : Value → Sandbox → Result Sandbox
  unfolding read_conditions
  with_conditions u s = elim (access.nested_slice u ("status" ∷ "conditions" ∷ [])) [
    | err e ↦ err (wrap ("sandbox " <> s.name <> ": status.conditions") e)
    | ok (conditions, _) ↦ ok (read_conditions conditions s)
  ]

  unfoldable pub with_selector : Value → Sandbox → Result Sandbox
  unfolding with_conditions
  with_selector u s = elim (access.nested_string u ("status" ∷ "selector" ∷ [])) [
    | err e ↦ err (wrap ("sandbox " <> s.name <> ": status.selector") e)
    | ok (selector, _) ↦ with_conditions u (record s { selector = selector })
  ]

  unfoldable pub with_fqdn : Value → Sandbox → Result Sandbox
  unfolding with_selector
  with_fqdn u s = elim (access.nested_string u ("status" ∷ "serviceFQDN" ∷ [])) [
    | err e ↦ err (wrap ("sandbox " <> s.name <> ": status.serviceFQDN") e)
    | ok (fqdn, _) ↦ with_selector u (record s { service_fqdn = fqdn })
  ]

  unfoldable pub sandbox_from_unstructured : Value → Result Sandbox
  unfolding with_fqdn
  sandbox_from_unstructured u =
      let s = empty_sandbox (access.get_name u) in
      elim (access.nested_string u ("spec" ∷ "operatingMode" ∷ [])) [
        | err e ↦ err (wrap ("sandbox " <> s.name <> ": spec.operatingMode") e)
        | ok (mode, _) ↦ with_fqdn u (record s { operating_mode = mode })
      ]

-- operatingModePatch
unfoldable pub operating_mode_patch : String → Value
operating_mode_patch mode =
    object (field "spec" (object (field "operatingMode" (str mode) end)) end)

-- a nil pointer is marshalled as null
unfoldable pub patch_fields : Dict (Option String) → Fields
patch_fields [] = end
patch_fields ((k, none) ∷ rest) = field k null (patch_fields rest)
patch_fields ((k, some v) ∷ rest) = field k (str v) (patch_fields rest)

-- annotationsPatch
unfoldable pub annotations_patch : Dict (Option String) → Value
unfolding patch_fields
annotations_patch annotations =
    object
      (field "metadata" (object (field "annotations" (object (patch_fields annotations)) end)) end)
