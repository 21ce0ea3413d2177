-- ===== src/K8s/Dynamic/Writes.antt =====
-- The writes of the dynamic client.

use hermes_cluster.Base.{String, ◌≡◌, refl, inl, inr, Option, List, [], ◌∷◌, arith}
use hermes_cluster.Base.Dict.{Dict}
use hermes_cluster.Base.Errors.{Err}
use hermes_cluster.Base.Exec.{ok, Result-cases}
use hermes_cluster.Session.{managed_label}
use hermes_cluster.K8s.{ClaimSpec}
use hermes_cluster.K8s.Value.{Value, str, get_field, found, or_missing, child}
use hermes_cluster.K8s.Unstructured.{
  annotation_fields, new_claim_object, annotations_patch, operating_mode_patch,
}
use hermes_cluster.K8s.Unstructured.Access.{meta}
use hermes_cluster.K8s.Dynamic.{
  Resource, DynamicClient, create_claim, managed_only, list_claims, claims_from, delete_claim,
  patch_claim_annotations, patch_sandbox_operating_mode,
}
use hermes_cluster.K8s.Dynamic.Exposure.{ensure}
use hermes_cluster.K8s.Dynamic.Server.{label, annotation}

-- The claim that is sent carries the name, the managed label and the annotations.
module _ (api_version namespace : String) (spec : ClaimSpec) where
  abbrev sent : Value
  sent = new_claim_object api_version namespace spec managed_label

  pub new_claim_object-name : meta "name" sent ≡ found (str spec.name)
  unfolding new_claim_object child get_field
  new_claim_object-name = refl

  pub new_claim_object-label : label managed_label sent ≡ found (str "true")
  unfolding new_claim_object child get_field
  new_claim_object-label = refl

  pub new_claim_object-annotation :
      (key : String)
      → annotation key sent ≡ or_missing (get_field key (annotation_fields spec.annotations))
  unfolding new_claim_object child get_field
  new_claim_object-annotation key = refl

module _ {S : Type 0} (c : DynamicClient S) where
  claims_from-state : (us : List Value) (s : S) → (claims_from c us s).1 ≡ s
  unfolding claims_from
  claims_from-state [] s = refl
  claims_from-state (u ∷ us) s = let later = claims_from-state us s in ground arith

  pub list_claims-state :
      (s : S) → (list_claims c s).1 ≡ (c.api.list c.claim_gvr c.namespace managed_only s).1
  unfolding list_claims
  list_claims-state s = elim (Result-cases (c.api.list c.claim_gvr c.namespace managed_only s).0) [
    | inl (us, p) ↦
        ground (arith, claims_from-state us (c.api.list c.claim_gvr c.namespace managed_only s).1)
    | inr (e, p) ↦ ground arith
  ]

  abbrev pub created : ClaimSpec → Value
  created spec = new_claim_object c.claim_api_version c.namespace spec managed_label

  pub create_claim-state :
      (spec : ClaimSpec) (s : S)
      → (create_claim c spec s).1 ≡ (c.api.create c.claim_gvr c.namespace (created spec) s).1
  unfolding create_claim
  create_claim-state spec s = ground arith

  pub create_claim-ok :
      (spec : ClaimSpec) (s : S)
      → (create_claim c spec s).0 ≡ ok tt
      → (r : Value) × ((c.api.create c.claim_gvr c.namespace (created spec) s).0 ≡ ok r)
  unfolding create_claim
  create_claim-ok spec s h =
      elim (Result-cases (c.api.create c.claim_gvr c.namespace (created spec) s).0) [
        | inl done ↦ done
        | inr (e, p) ↦ absurd (ground arith)
      ]

  pub delete_claim-state :
      (n : String) (s : S) → (delete_claim c n s).1 ≡ (c.api.delete c.claim_gvr c.namespace n s).1
  unfolding delete_claim
  delete_claim-state n s = ground arith

  pub patch_claim_annotations-state :
      (n : String) (patch : Dict (Option String)) (s : S)
      → (patch_claim_annotations c n patch s).1
        ≡ (c.api.patch c.claim_gvr c.namespace n (annotations_patch patch) s).1
  unfolding patch_claim_annotations
  patch_claim_annotations-state n patch s = ground arith

  pub patch_sandbox_operating_mode-state :
      (n mode : String) (s : S)
      → (patch_sandbox_operating_mode c n mode s).1
        ≡ (c.api.patch c.sbox_gvr c.namespace n (operating_mode_patch mode) s).1
  unfolding patch_sandbox_operating_mode
  patch_sandbox_operating_mode-state n mode s = ground arith

  pub ensure-state :
      (g : Resource) (u : Value) (context : Err → Err) (s : S)
      → (ensure c g u context s).1 ≡ (c.api.create g c.namespace u s).1
  unfolding ensure
  ensure-state g u context s = ground arith
