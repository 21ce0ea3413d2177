-- ===== src/K8s/Dynamic/Sound.antt =====
-- The dynamic client does what the rest of the program relies on, over any API server that behaves
-- as documented.
use hermes_cluster.Base.{String, ◌≡◌, refl, false, inl, inr, Option, ◌∙◌, sym, ap, ◌==◌, Bool-cases}
use hermes_cluster.Base.Errors.{Err}
use hermes_cluster.Base.Exec.{Done-cases}
use hermes_cluster.K8s.{ExposureSpec}
use hermes_cluster.K8s.Contract.{Contract}
use hermes_cluster.K8s.Value.{Value}
use hermes_cluster.K8s.Unstructured.{Accessors, annotations_patch, operating_mode_patch}
use hermes_cluster.K8s.Unstructured.Access.{Reads}
use hermes_cluster.K8s.Dynamic.{
  Api, Options, Resource, DynamicClient, managed_only, new_with_interface,
}
use hermes_cluster.K8s.Dynamic.Exposure.{
  dynamic_client, ensure, ensure_service, ensure_ingress, ensure_exposure,
}
use hermes_cluster.K8s.Dynamic.Server.{Serves}
use hermes_cluster.K8s.Dynamic.Reads.{
  Sane, view_from, view_of, read_claim, read_sandbox, get_claim-state, get_sandbox-state,
  get_claim-ok, get_claim-err, get_sandbox-ok,
}
use hermes_cluster.K8s.Dynamic.Writes.{
  list_claims-state, ensure-state, patch_claim_annotations-state,
  patch_sandbox_operating_mode-state,
}
use hermes_cluster.K8s.Dynamic.Effects.{
  IsApart, create_claim-Sane, delete_claim-Sane, patch_claim_annotations-Sane,
  patch_sandbox_operating_mode-Sane,
}
use hermes_cluster.K8s.Dynamic.Views.{
  create_claim-fresh, create_claim-stored, create_claim-others, delete_claim-ok, delete_claim-err,
  delete_claim-others, patch_claim_annotations-ok, patch_sandbox_operating_mode-ok,
}

module _ {S : Type 0} (c : DynamicClient S) {objects : S → Resource → String → Option Value}
    {IsValid : S → Type 0} (serves : Serves c objects IsValid) (apart : IsApart c) where
  -- The claims and the sandboxes are as they were.
  record Keeps (s t : S) : Type 0 where
    valid : IsValid s → IsValid t
    claims : objects t c.claim_gvr ≡ objects s c.claim_gvr
    sandboxes : objects t c.sbox_gvr ≡ objects s c.sbox_gvr

  Keeps-trans : (s t u : S) → Keeps s t → Keeps t u → Keeps s u
  Keeps-trans s t u k l = record {
    valid = λ h. l.valid (k.valid h);
    claims = l.claims ∙ k.claims;
    sandboxes = l.sandboxes ∙ k.sandboxes;
  }

  Keeps-refl : (s : S) → Keeps s s
  Keeps-refl s = record { valid = λ h. h; claims = refl; sandboxes = refl }

  ensure-Keeps :
      (g : Resource) (u : Value) (context : Err → Err) (s : S)
      → (g.resource == c.claim_gvr.resource) ≡ false
      → (g.resource == c.sbox_gvr.resource) ≡ false
      → Keeps s (ensure c g u context s).1
  ensure-Keeps g u context s p q = rw (ensure-state c g u context s) (record {
    valid = serves.create-IsValid g u s;
    claims = serves.create-elsewhere g c.claim_gvr u s p;
    sandboxes = serves.create-elsewhere g c.sbox_gvr u s q;
  })

  ensure_service-Keeps : (spec : ExposureSpec) (s : S) → Keeps s (ensure_service c spec s).1
  unfolding ensure_service
  ensure_service-Keeps spec s =
      ensure-Keeps c.svc_gvr _ _ s apart.services_claims apart.services_sandboxes

  ensure_ingress-Keeps : (spec : ExposureSpec) (s : S) → Keeps s (ensure_ingress c spec s).1
  unfolding ensure_ingress
  ensure_ingress-Keeps spec s = elim (Bool-cases (spec.host == "")) [
    | inl private ↦ rw (ensure_ingress, private) (Keeps-refl s)
    | inr public ↦
        rw (ensure_ingress, public)
          (ensure-Keeps c.ing_gvr _ _ s apart.ingresses_claims apart.ingresses_sandboxes)
  ]

  ensure_exposure-Keeps : (spec : ExposureSpec) (s : S) → Keeps s (ensure_exposure c spec s).1
  unfolding ensure_exposure
  ensure_exposure-Keeps spec s = elim (Bool-cases (spec.selector == "")) [
    | inl unbound ↦ rw (ensure_exposure, unbound) (Keeps-refl s)
    | inr bound ↦ elim (Done-cases (ensure_service c spec s).0) [
      | inl done ↦
          rw (ensure_exposure, bound, done)
            (Keeps-trans s _ _ (ensure_service-Keeps spec s)
              (ensure_ingress-Keeps spec (ensure_service c spec s).1))
      | inr (e, refused) ↦ rw (ensure_exposure, bound, refused) (ensure_service-Keeps spec s)
    ]
  ]

  ensure_exposure-Sane :
      (spec : ExposureSpec) (s : S)
      → Sane c objects IsValid s
      → Sane c objects IsValid (ensure_exposure c spec s).1
  ensure_exposure-Sane spec s sane =
      let k = ensure_exposure-Keeps spec s in
      record {
        valid = k.valid sane.valid;
        managed = λ n u stored. sane.managed n u (ap (λ f. f n) (sym k.claims) ∙ stored);
      }

  ensure_exposure-view :
      (spec : ExposureSpec) (s : S)
      → view_of c objects (ensure_exposure c spec s).1 ≡ view_of c objects s
  ensure_exposure-view spec s = λ i. record {
    claim = λ n. read_claim c.access ((ensure_exposure-Keeps spec s).claims i n);
    sandbox = λ n. read_sandbox c.access ((ensure_exposure-Keeps spec s).sandboxes i n);
  }

  -- A state with the same objects, still valid.
  same-Sane :
      (s t : S)
      → (IsValid s → IsValid t)
      → objects t ≡ objects s
      → Sane c objects IsValid s
      → Sane c objects IsValid t
  same-Sane s t valid same sane = record {
    valid = valid sane.valid;
    managed = λ n u stored. sane.managed n u (ap (λ f. f c.claim_gvr n) (sym same) ∙ stored);
  }

  module _ (reads : Reads c.access) where
    pub client-Contract : Contract (dynamic_client c) (view_of c objects) (Sane c objects IsValid)
    client-Contract = record {
      get_claim-Sane = λ n s h.
          rw (get_claim-state c n s) (
            same-Sane s _ (serves.get-valid c.claim_gvr n s) (serves.get-objects c.claim_gvr n s)
              h);
      get_claim-view = λ n s h.
          rw (get_claim-state c n s) (ap (view_from c) (serves.get-objects c.claim_gvr n s));
      get_claim-ok = λ n s d h e. get_claim-ok c serves reads n s d h e;
      get_claim-err = λ n s e h r m. get_claim-err c serves reads n s e h r m;
      get_sandbox-Sane = λ n s h.
          rw (get_sandbox-state c n s)
            (same-Sane s _ (serves.get-valid c.sbox_gvr n s) (serves.get-objects c.sbox_gvr n s) h);
      get_sandbox-view = λ n s h.
          rw (get_sandbox-state c n s) (ap (view_from c) (serves.get-objects c.sbox_gvr n s));
      get_sandbox-ok = λ n s b h e. get_sandbox-ok c serves reads n s b h e;
      list_claims-Sane = λ s h. rw (list_claims-state c s) (
          same-Sane s _ (serves.list-valid c.claim_gvr managed_only s)
            (serves.list-objects c.claim_gvr managed_only s) h);
      list_claims-view = λ s h.
          rw (list_claims-state c s)
            (ap (view_from c) (serves.list-objects c.claim_gvr managed_only s));
      ensure_exposure-Sane = λ spec s h. ensure_exposure-Sane spec s h;
      ensure_exposure-view = λ spec s h. ensure_exposure-view spec s;
      create_claim-Sane = λ spec s h. create_claim-Sane c serves apart spec s h;
      create_claim-fresh = λ spec s h e. create_claim-fresh c serves reads spec s e;
      create_claim-stored = λ spec s h e. create_claim-stored c serves reads spec s h e;
      create_claim-others = λ spec s j h e d. create_claim-others c serves reads spec s j d;
      delete_claim-Sane = λ n s h. delete_claim-Sane c serves apart n s h;
      delete_claim-ok = λ n s j h e. delete_claim-ok c serves reads n s j e;
      delete_claim-err = λ n s e h r m. delete_claim-err c serves reads n s e r m;
      delete_claim-others = λ n s j h d. delete_claim-others c serves reads n s j d;
      patch_claim_annotations-Sane = λ n p s h. patch_claim_annotations-Sane c serves apart n p s h;
      patch_claim_annotations-ok = λ n p s h e. patch_claim_annotations-ok c serves reads n p s h e;
      patch_claim_annotations-others = λ n p s j h d. rw (patch_claim_annotations-state c n p s) (
          ap (read_claim c.access) (serves.patch-others c.claim_gvr n j (annotations_patch p) s d));
      patch_claim_annotations-sandbox = λ n p s h. rw (patch_claim_annotations-state c n p s) (
          ap (λ f k. read_sandbox c.access (f k))
            (serves.patch-elsewhere c.claim_gvr c.sbox_gvr n (annotations_patch p) s
              apart.claims_sandboxes));
      patch_sandbox_operating_mode-Sane =
          λ n mode s h. patch_sandbox_operating_mode-Sane c serves apart n mode s h;
      patch_sandbox_operating_mode-ok =
          λ n mode s h e. patch_sandbox_operating_mode-ok c serves reads n mode s h e;
      patch_sandbox_operating_mode-others = λ n mode s j h d.
          rw (patch_sandbox_operating_mode-state c n mode s) (
            ap (read_sandbox c.access)
              (serves.patch-others c.sbox_gvr n j (operating_mode_patch mode) s d));
      patch_sandbox_operating_mode-claim = λ n mode s h.
          rw (patch_sandbox_operating_mode-state c n mode s) (
            ap (λ f k. read_claim c.access (f k))
              (serves.patch-elsewhere c.sbox_gvr c.claim_gvr n (operating_mode_patch mode) s
                apart.sandboxes_claims));
    }

-- The client of a real cluster keeps the contract, over any API server and accessors that behave as
-- documented, from a state whose objects satisfy their schemas and whose claims are all managed.
pub dynamic_client-Contract :
    {S : Type 0} (api : Api S) (access : Accessors) (opts : Options)
    {objects : S → Resource → String → Option Value} {IsValid : S → Type 0}
    → Serves (new_with_interface api access opts) objects IsValid
    → Reads access
    → Contract
        (dynamic_client (new_with_interface api access opts))
        (view_of (new_with_interface api access opts) objects)
        (Sane (new_with_interface api access opts) objects IsValid)
dynamic_client-Contract api access opts serves reads =
    client-Contract (new_with_interface api access opts) serves
      (record {
        claims_sandboxes = refl;
        sandboxes_claims = refl;
        services_claims = refl;
        services_sandboxes = refl;
        ingresses_claims = refl;
        ingresses_sandboxes = refl;
      })
      reads
