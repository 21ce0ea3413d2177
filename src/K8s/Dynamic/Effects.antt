-- ===== src/K8s/Dynamic/Effects.antt =====
-- What the writes of the dynamic client do to the objects of the cluster.
use hermes_cluster.Base.{
  String, ◌≡◌, refl, false, inl, inr, Option, some, List, [], ◌∷◌, ◌∙◌, sym, ap, subst, ◌==◌,
  eq_iff, Bool-cases,
}
use hermes_cluster.Base.Dict.{Dict, lookup}
use hermes_cluster.Session.{managed_label}
use hermes_cluster.K8s.{ClaimSpec}
use hermes_cluster.K8s.Contract.{patched}
use hermes_cluster.K8s.Value.{Value, str, object, found, child, at, text_of}
use hermes_cluster.K8s.Value.Merge.{merge}
use hermes_cluster.K8s.Value.Patching.{child-merge_other, grandchild-merge_other, annotation-merge}
use hermes_cluster.K8s.Unstructured.{annotations_patch, patch_fields, operating_mode_patch}
use hermes_cluster.K8s.Dynamic.{
  Resource, DynamicClient, create_claim, delete_claim, patch_claim_annotations,
  patch_sandbox_operating_mode,
}
use hermes_cluster.K8s.Dynamic.Server.{
  Serves, ClaimSchema, Merged, label, annotation, is_maintained,
}
use hermes_cluster.K8s.Dynamic.Reads.{Sane}
use hermes_cluster.K8s.Dynamic.Writes.{
  new_claim_object-name, new_claim_object-label, created, create_claim-state, delete_claim-state,
  patch_claim_annotations-state, patch_sandbox_operating_mode-state,
}

-- The resources of the client are different ones.
pub record IsApart {S : Type 0} (c : DynamicClient S) : Type 0 where
  pub claims_sandboxes : (c.claim_gvr.resource == c.sbox_gvr.resource) ≡ false
  pub sandboxes_claims : (c.sbox_gvr.resource == c.claim_gvr.resource) ≡ false
  pub services_claims : (c.svc_gvr.resource == c.claim_gvr.resource) ≡ false
  pub services_sandboxes : (c.svc_gvr.resource == c.sbox_gvr.resource) ≡ false
  pub ingresses_claims : (c.ing_gvr.resource == c.claim_gvr.resource) ≡ false
  pub ingresses_sandboxes : (c.ing_gvr.resource == c.sbox_gvr.resource) ≡ false

-- Annotations are merged below the metadata, and leave what else is there, and all outside.
module _ (n : String) (patch : Dict (Option String)) (u v : Value) (schema : ClaimSchema n u)
    (merged : Merged (annotations_patch patch) u v) where
  pub metadata-kept :
      (key : String) (path : List String)
      → ("annotations" == key) ≡ false
      → is_maintained key ≡ false
      → at ("metadata" ∷ key ∷ path) (found v) ≡ at ("metadata" ∷ key ∷ path) (found u)
  unfolding annotations_patch
  metadata-kept key path other free =
      merged.inside key path free
      ∙ ap (λ x. at ("metadata" ∷ key ∷ path) (found (merge x (annotations_patch patch))))
          schema.is_object
      ∙ ap (at path) (
          grandchild-merge_other "metadata" "annotations" (object (patch_fields patch))
            schema.fields schema.metadata key schema.has_metadata other)
      ∙ ap (λ x. at ("metadata" ∷ key ∷ path) (found x)) (sym schema.is_object)

  pub outside-kept :
      (key : String) (path : List String)
      → ("metadata" == key) ≡ false
      → (key == "metadata") ≡ false
      → at (key ∷ path) (found v) ≡ at (key ∷ path) (found u)
  unfolding annotations_patch
  outside-kept key path other free =
      merged.outside key path free
      ∙ ap (λ x. at (key ∷ path) (found (merge x (annotations_patch patch)))) schema.is_object
      ∙ ap (at path) (
          child-merge_other "metadata" "annotations" (object (patch_fields patch)) schema.fields key
            other)
      ∙ ap (λ x. at (key ∷ path) (found x)) (sym schema.is_object)

  pub annotation-patched :
      (key : String)
      → text_of (annotation key v) ≡ patched (lookup key patch) (text_of (annotation key u))
  annotation-patched key =
      ap text_of (merged.inside "annotations" (key ∷ []) refl)
      ∙ ap (λ x. text_of (annotation key (merge x (annotations_patch patch)))) schema.is_object
      ∙ annotation-merge key patch schema.fields schema.metadata schema.has_metadata
      ∙ ap (λ x. patched (lookup key patch) (text_of (child key (child "annotations" x))))
          (sym schema.has_metadata)
      ∙ ap (λ x. patched (lookup key patch) (text_of (annotation key x))) (sym schema.is_object)

module _ {S : Type 0} (c : DynamicClient S) {objects : S → Resource → String → Option Value}
    {IsValid : S → Type 0} (serves : Serves c objects IsValid) (apart : IsApart c) where
  -- A write to one claim keeps all managed, if that one still is.
  managed_after :
      (n : String) (s s' : S)
      → Sane c objects IsValid s
      → ((u : Value)
          → objects s' c.claim_gvr n ≡ some u
          → label managed_label u ≡ found (str "true"))
      → ((j : String) → (n == j) ≡ false → objects s' c.claim_gvr j ≡ objects s c.claim_gvr j)
      → (j : String) (u : Value) → objects s' c.claim_gvr j ≡ some u
      → label managed_label u ≡ found (str "true")
  managed_after n s s' sane own others j u stored = elim (Bool-cases (n == j)) [
    | inl same ↦
        own u (subst (λ k. objects s' c.claim_gvr k ≡ some u) (sym ((eq_iff n j).0 same)) stored)
    | inr other ↦ sane.managed j u (sym (others j other) ∙ stored)
  ]

  created-managed :
      (spec : ClaimSpec) (s : S)
      → Sane c objects IsValid s
      → (u : Value)
      → objects (c.api.create c.claim_gvr c.namespace (created c spec) s).1 c.claim_gvr spec.name
        ≡ some u
      → label managed_label u ≡ found (str "true")
  created-managed spec s sane u stored =
      let named = new_claim_object-name c.claim_api_version c.namespace spec in
      elim (serves.create-effect c.claim_gvr spec.name (created c spec) s named) [
        | inl kept ↦ sane.managed spec.name u (sym kept ∙ stored)
        | inr (v, after, accepted) ↦
            let same : v ≡ u = cc in
            subst (λ x. label managed_label x ≡ found (str "true")) same
              (accepted.labels managed_label
                ∙ new_claim_object-label c.claim_api_version c.namespace spec)
      ]

  pub create_claim-Sane :
      (spec : ClaimSpec) (s : S)
      → Sane c objects IsValid s
      → Sane c objects IsValid (create_claim c spec s).1
  create_claim-Sane spec s sane =
      let named = new_claim_object-name c.claim_api_version c.namespace spec in
      let s' = (c.api.create c.claim_gvr c.namespace (created c spec) s).1 in
      rw (create_claim-state c spec s) (record {
        valid = serves.create-IsValid c.claim_gvr (created c spec) s sane.valid;
        managed = managed_after spec.name s s' sane (created-managed spec s sane) (λ j other.
            serves.create-others c.claim_gvr spec.name j (created c spec) s named other);
      })

  pub delete_claim-Sane :
      (n : String) (s : S)
      → Sane c objects IsValid s
      → Sane c objects IsValid (delete_claim c n s).1
  delete_claim-Sane n s sane = rw (delete_claim-state c n s) (record {
    valid = serves.delete-IsValid c.claim_gvr n s sane.valid;
    managed =
        managed_after n s (c.api.delete c.claim_gvr c.namespace n s).1 sane
          (λ u stored. elim (serves.delete-effect c.claim_gvr n s) [
            | inl kept ↦ sane.managed n u (sym kept ∙ stored)
            | inr gone ↦ absurd (cc)
          ])
          (λ j other. serves.delete-others c.claim_gvr n j s other);
  })

  pub patch_claim_annotations-Sane :
      (n : String) (patch : Dict (Option String)) (s : S)
      → Sane c objects IsValid s
      → Sane c objects IsValid (patch_claim_annotations c n patch s).1
  patch_claim_annotations-Sane n patch s sane =
      let doc = annotations_patch patch in
      rw (patch_claim_annotations-state c n patch s) (record {
        valid = serves.patch-IsValid c.claim_gvr n doc s sane.valid;
        managed =
            managed_after n s (c.api.patch c.claim_gvr c.namespace n doc s).1 sane
              (λ u stored. elim (serves.patch-effect c.claim_gvr n doc s) [
                | inl kept ↦ sane.managed n u (sym kept ∙ stored)
                | inr (old, new, before, after, m) ↦
                    let schema = serves.claim_schema s n old sane.valid before in
                    let same : new ≡ u = cc in
                    subst (λ x. label managed_label x ≡ found (str "true")) same
                      (metadata-kept n patch old new schema m "labels" (managed_label ∷ []) refl
                          refl
                        ∙ sane.managed n old before)
              ])
              (λ j other. serves.patch-others c.claim_gvr n j doc s other);
      })

  pub patch_sandbox_operating_mode-Sane :
      (n mode : String) (s : S)
      → Sane c objects IsValid s
      → Sane c objects IsValid (patch_sandbox_operating_mode c n mode s).1
  patch_sandbox_operating_mode-Sane n mode s sane =
      let doc = operating_mode_patch mode in
      let kept = serves.patch-elsewhere c.sbox_gvr c.claim_gvr n doc s apart.sandboxes_claims in
      rw (patch_sandbox_operating_mode-state c n mode s) (record {
        valid = serves.patch-IsValid c.sbox_gvr n doc s sane.valid;
        managed = λ j u stored. sane.managed j u (sym (ap (λ f. f j) kept) ∙ stored);
      })
