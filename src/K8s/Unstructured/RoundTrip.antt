-- ===== src/K8s/Unstructured/RoundTrip.antt =====
-- A claim object that is built is read back as what it was built from (k8s/unstructured.go).
use hermes_cluster.Base.{String, ◌≡◌, refl, true, false, [], ◌∷◌, arith, ◌∙◌}
use hermes_cluster.Base.Dict.{Dict, lookup}
use hermes_cluster.Base.Exec.{ok}
use hermes_cluster.K8s.{Claim, ClaimSpec}
use hermes_cluster.K8s.Value.{
  str, Fields, end, field, get_field, set_field, get_field-set_field, or_missing, child, text_of,
  all_texts,
}
use hermes_cluster.K8s.Unstructured.{
  Accessors, annotation_fields, new_claim_object, bare_claim, claim_from_unstructured,
}
use hermes_cluster.K8s.Unstructured.Access.{Reads}
use hermes_cluster.K8s.Unstructured.Reading.{claim_of, claim_from_unstructured-ok}

all_texts-set_field :
    (k v : String) (fs : Fields) → all_texts fs ≡ true → all_texts (set_field k (str v) fs) ≡ true
unfolding all_texts set_field
all_texts-set_field k v end h = refl
all_texts-set_field k v (field j w fs) h = let rest = all_texts-set_field k v fs in ground arith

annotation_fields-texts : (m : Dict String) → all_texts (annotation_fields m) ≡ true
unfolding all_texts annotation_fields
annotation_fields-texts [] = refl
annotation_fields-texts ((k, v) ∷ rest) =
    all_texts-set_field k v (annotation_fields rest) (annotation_fields-texts rest)

pub annotation_fields_lem :
    (key : String) (annotations : Dict String)
    → text_of (or_missing (get_field key (annotation_fields annotations))) ≡ lookup key annotations
unfolding annotation_fields lookup or_missing get_field
annotation_fields_lem key [] = refl
annotation_fields_lem key ((k, v) ∷ rest) =
    let later = annotation_fields_lem key rest in
    ground (arith, get_field-set_field k key (str v) (annotation_fields rest))

-- An object that newClaimObject builds is read, whatever accessors behave as documented: the claim
-- has the name and the annotations of the specification, is not terminating and has no sandbox yet.
pub claim_from_unstructured-new_claim_object :
    (access : Accessors)
    → Reads access
    → (api_version namespace managed : String) (spec : ClaimSpec)
    → (c : Claim) × (claim_from_unstructured access
          (new_claim_object api_version namespace spec managed)
        ≡ ok c)
      × (c.name ≡ spec.name)
      × ((key : String) → lookup key c.annotations ≡ lookup key spec.annotations)
      × (c.terminating ≡ false)
      × (c.sandbox_name ≡ "")
unfolding new_claim_object child get_field bare_claim
claim_from_unstructured-new_claim_object access reads api_version namespace managed spec =
    let u = new_claim_object api_version namespace spec managed in
    let live = reads.not_deleted u refl in
    (
      claim_of access u,
      claim_from_unstructured-ok access reads u refl,
      reads.name u spec.name refl,
      (λ key.
          reads.annotation u key (annotation_fields-texts spec.annotations)
          ∙ annotation_fields_lem key spec.annotations),
      ground arith,
      refl,
    )
