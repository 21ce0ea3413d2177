-- ===== src/K8s/Dynamic/Views.antt =====
-- What the writes of the dynamic client do to the view of the cluster.

use hermes_cluster.Base.{
  String, ◌≡◌, refl, true, false, inl, inr, Option, none, some, [], ◌∷◌, arith, ◌∙◌, sym, ap, ◌==◌,
  if◌then◌else◌, eq_iff, Bool-cases,
}
use hermes_cluster.Base.Dict.{Dict, lookup}
use hermes_cluster.Base.Errors.{Err, errors_is, not_found}
use hermes_cluster.Base.Exec.{ok, err, Result-cases}
use hermes_cluster.K8s.{Claim, Sandbox, ClaimSpec}
use hermes_cluster.K8s.Contract.{IsPatched, patched}
use hermes_cluster.K8s.Value.{Value, found, at, text_of}
use hermes_cluster.K8s.Value.Merge.{merge}
use hermes_cluster.K8s.Value.Patching.{operating_mode-merge}
use hermes_cluster.K8s.Unstructured.{bare_claim, annotations_patch, operating_mode_patch, or_empty}
use hermes_cluster.K8s.Unstructured.Access.{Reads}
use hermes_cluster.K8s.Unstructured.Reading.{claim_of}
use hermes_cluster.K8s.Unstructured.RoundTrip.{annotation_fields_lem}
use hermes_cluster.K8s.Dynamic.{
  Resource, DynamicClient, create_claim, delete_claim, patch_claim_annotations,
  patch_sandbox_operating_mode,
}
use hermes_cluster.K8s.Dynamic.Server.{Serves, ClaimSchema, Accepted, Merged}
use hermes_cluster.K8s.Dynamic.Reads.{
  Sane, view_from, view_of, read_claim, read_claim-stored, read_sandbox-stored,
}
use hermes_cluster.K8s.Dynamic.Writes.{
  new_claim_object-name, new_claim_object-annotation, created, create_claim-state, create_claim-ok,
  delete_claim-state, patch_claim_annotations-state, patch_sandbox_operating_mode-state,
}
use hermes_cluster.K8s.Dynamic.Effects.{metadata-kept, outside-kept, annotation-patched}

module _ {S : Type 0} (c : DynamicClient S) {objects : S → Resource → String → Option Value}
    {IsValid : S → Type 0} (serves : Serves c objects IsValid) (reads : Reads c.access) where
  -- The view of an accepted claim: it lives, with the annotations that were sent.
  accepted_claim :
      (spec : ClaimSpec) (v : Value)
      → ClaimSchema spec.name v
      → Accepted (created c spec) v
      → ((claim_of c.access v).terminating ≡ false)
        × ((k : String) → lookup k (claim_of c.access v).annotations ≡ lookup k spec.annotations)
  unfolding bare_claim
  accepted_claim spec v schema accepted =
      let live = reads.not_deleted v accepted.not_deleted in
      (
        ground arith,
        λ k.
            reads.annotation v k schema.annotations
            ∙ ap text_of (accepted.annotations k)
            ∙ ap text_of (new_claim_object-annotation c.claim_api_version c.namespace spec k)
            ∙ annotation_fields_lem k spec.annotations,
      )

  pub create_claim-fresh :
      (spec : ClaimSpec) (s : S)
      → (create_claim c spec s).0 ≡ ok tt
      → (view_of c objects s).claim spec.name ≡ none
  create_claim-fresh spec s h =
      let (r, done) = create_claim-ok c spec s h in
      let named = new_claim_object-name c.claim_api_version c.namespace spec in
      ap (read_claim c.access)
        (serves.create-fresh c.claim_gvr spec.name (created c spec) r s named done)

  pub create_claim-stored :
      (spec : ClaimSpec) (s : S)
      → Sane c objects IsValid s
      → (create_claim c spec s).0 ≡ ok tt
      → (d : Claim) × ((view_of c objects (create_claim c spec s).1).claim spec.name ≡ some d)
        × (d.name ≡ spec.name)
        × (d.terminating ≡ false)
        × ((k : String) → lookup k d.annotations ≡ lookup k spec.annotations)
  create_claim-stored spec s sane h =
      let (r, done) = create_claim-ok c spec s h in
      let named = new_claim_object-name c.claim_api_version c.namespace spec in
      let s' = (c.api.create c.claim_gvr c.namespace (created c spec) s).1 in
      let valid = serves.create-IsValid c.claim_gvr (created c spec) s sane.valid in
      let (v, after, accepted) =
        serves.create-stored c.claim_gvr spec.name (created c spec) r s named done in
      let schema = serves.claim_schema s' spec.name v valid after in
      let (read, name) = read_claim-stored c serves reads s' spec.name v valid after in
      let (live, annotated) = accepted_claim spec v schema accepted in
      (claim_of c.access v, rw (create_claim-state c spec s) (ground arith), name, live, annotated)

  pub create_claim-others :
      (spec : ClaimSpec) (s : S) (j : String)
      → (spec.name == j) ≡ false
      → (view_of c objects (create_claim c spec s).1).claim j ≡ (view_of c objects s).claim j
  create_claim-others spec s j other =
      let named = new_claim_object-name c.claim_api_version c.namespace spec in
      rw (create_claim-state c spec s) (
        ap (read_claim c.access)
          (serves.create-others c.claim_gvr spec.name j (created c spec) s named other))

  pub delete_claim-others :
      (n : String) (s : S) (j : String)
      → (n == j) ≡ false
      → (view_of c objects (delete_claim c n s).1).claim j ≡ (view_of c objects s).claim j
  delete_claim-others n s j other =
      rw (delete_claim-state c n s)
        (ap (read_claim c.access) (serves.delete-others c.claim_gvr n j s other))

  delete_claim-gone :
      (n : String) (s : S)
      → (delete_claim c n s).0 ≡ ok tt
      → (view_of c objects (delete_claim c n s).1).claim n ≡ none
  delete_claim-gone n s h = elim (Result-cases (c.api.delete c.claim_gvr c.namespace n s).0) [
    | inl (t, done) ↦
        rw (delete_claim-state c n s)
          (ap (read_claim c.access) (serves.delete-gone c.claim_gvr n s done))
    | inr (e, refused) ↦ absurd (unfold delete_claim in ground arith)
  ]

  pub delete_claim-ok :
      (n : String) (s : S) (j : String)
      → (delete_claim c n s).0 ≡ ok tt
      → (view_of c objects (delete_claim c n s).1).claim j
        ≡ (if n == j then none else (view_of c objects s).claim j)
  delete_claim-ok n s j h = elim (Bool-cases (n == j)) [
    | inl same ↦ rw same (rw (← (eq_iff n j).0 same) (delete_claim-gone n s h))
    | inr other ↦ rw other (delete_claim-others n s j other)
  ]

  pub delete_claim-err :
      (n : String) (s : S) (e : Err)
      → (delete_claim c n s).0 ≡ err e
      → errors_is e not_found ≡ true
      → ((view_of c objects s).claim n ≡ none)
        × (view_of c objects (delete_claim c n s).1 ≡ view_of c objects s)
  delete_claim-err n s e h m = elim (Result-cases (c.api.delete c.claim_gvr c.namespace n s).0) [
    | inl (t, done) ↦ absurd (unfold delete_claim in ground arith)
    | inr (f, refused) ↦ elim (Bool-cases (c.api.is_not_found f)) [
      | inl missed ↦
          let (gone, same) = serves.delete-missing c.claim_gvr n s f refused missed in
          (ap (read_claim c.access) gone, rw (delete_claim-state c n s) (ap (view_from c) same))
      | inr kept ↦
          let foreign = serves.delete-foreign c.claim_gvr n s f refused in
          absurd (unfold delete_claim in ground arith)
    ]
  ]

  IsPatched-claim :
      (n : String) (patch : Dict (Option String)) (u v : Value)
      → ClaimSchema n u
      → ClaimSchema n v
      → Merged (annotations_patch patch) u v
      → IsPatched patch (claim_of c.access u) (claim_of c.access v)
  unfolding bare_claim
  IsPatched-claim n patch u v schema schema' merged =
      let kept = metadata-kept n patch u v schema merged in
      let deletion = reads.deletion v u (kept "deletionTimestamp" [] refl refl) in
      record {
        name = reads.name v n schema'.named ∙ sym (reads.name u n schema.named);
        created_at = reads.creation v u (kept "creationTimestamp" [] refl refl);
        terminating = ground arith;
        sandbox_name =
            ap (λ x. or_empty (text_of x))
              (outside-kept n patch u v schema merged "status" ("sandbox" ∷ "name" ∷ []) refl refl);
        annotation = λ k.
            reads.annotation v k schema'.annotations
            ∙ annotation-patched n patch u v schema merged k
            ∙ ap (patched (lookup k patch)) (sym (reads.annotation u k schema.annotations));
      }

  pub patch_claim_annotations-ok :
      (n : String) (patch : Dict (Option String)) (s : S)
      → Sane c objects IsValid s
      → (patch_claim_annotations c n patch s).0 ≡ ok tt
      → (x y : Claim) × ((view_of c objects s).claim n ≡ some x)
        × ((view_of c objects (patch_claim_annotations c n patch s).1).claim n ≡ some y)
        × IsPatched patch x y
  patch_claim_annotations-ok n patch s sane h =
      let doc = annotations_patch patch in
      elim (Result-cases (c.api.patch c.claim_gvr c.namespace n doc s).0) [
        | inl (r, done) ↦
            let s' = (c.api.patch c.claim_gvr c.namespace n doc s).1 in
            let (u, v, before, after, merged) = serves.patch-merged c.claim_gvr n doc r s done in
            let valid = serves.patch-IsValid c.claim_gvr n doc s sane.valid in
            let (read, _) = read_claim-stored c serves reads s n u sane.valid before in
            let (read', _) = read_claim-stored c serves reads s' n v valid after in
            (
              claim_of c.access u,
              claim_of c.access v,
              ground arith,
              rw (patch_claim_annotations-state c n patch s) (ground arith),
              IsPatched-claim n patch u v (serves.claim_schema s n u sane.valid before)
                  (serves.claim_schema s' n v valid after) merged,
            )
        | inr (e, refused) ↦ absurd (unfold patch_claim_annotations in ground arith)
      ]

  pub patch_sandbox_operating_mode-ok :
      (n mode : String) (s : S)
      → Sane c objects IsValid s
      → (patch_sandbox_operating_mode c n mode s).0 ≡ ok tt
      → (b : Sandbox) × ((view_of c objects (patch_sandbox_operating_mode c n mode s).1).sandbox n
          ≡ some b)
        × (b.operating_mode ≡ mode)
  patch_sandbox_operating_mode-ok n mode s sane h =
      let doc = operating_mode_patch mode in
      elim (Result-cases (c.api.patch c.sbox_gvr c.namespace n doc s).0) [
        | inl (r, done) ↦
            let s' = (c.api.patch c.sbox_gvr c.namespace n doc s).1 in
            let (u, v, before, after, merged) = serves.patch-merged c.sbox_gvr n doc r s done in
            let valid = serves.patch-IsValid c.sbox_gvr n doc s sane.valid in
            let (b, read, _, own) = read_sandbox-stored c serves reads s' n v valid after in
            let schema = serves.sandbox_schema s n u sane.valid before in
            let switched =
              merged.outside "spec" ("operatingMode" ∷ []) refl
              ∙ ap (λ x. at ("spec" ∷ "operatingMode" ∷ []) (found (merge x doc))) schema.is_object
              ∙ operating_mode-merge mode schema.fields in
            (
              b,
              rw (patch_sandbox_operating_mode-state c n mode s) (ground arith),
              own ∙ ap (λ x. or_empty (text_of x)) switched,
            )
        | inr (e, refused) ↦ absurd (unfold patch_sandbox_operating_mode in ground arith)
      ]
