-- ===== src/K8s/Dynamic/Exposed.antt =====
-- What EnsureExposure leaves in the cluster (k8s/exposure.go).
use hermes_cluster.Base.{
  String, ◌≡◌, ◌≢◌, refl, true, false, inl, inr, Option, some, arith, ◌∙◌, ap, ◌==◌, eq_iff,
  Bool-cases,
}
use hermes_cluster.Base.Errors.{Err}
use hermes_cluster.Base.Exec.{ok, Result-cases, Done-cases}
use hermes_cluster.K8s.{ExposureSpec}
use hermes_cluster.K8s.Value.{Value, str, get_field, found, child}
use hermes_cluster.K8s.Unstructured.{Accessors}
use hermes_cluster.K8s.Unstructured.Access.{meta}
use hermes_cluster.K8s.Dynamic.{Api, Options, Resource, DynamicClient, new_with_interface}
use hermes_cluster.K8s.Dynamic.Exposure.{
  ensure, ensure_service, ensure_ingress, ensure_exposure, service_object, ingress_object,
}
use hermes_cluster.K8s.Dynamic.Server.{Serves}
use hermes_cluster.K8s.Dynamic.Writes.{ensure-state}

module _ (api_version namespace : String) (spec : ExposureSpec) where
  service_object-name :
      meta "name" (service_object api_version namespace spec) ≡ found (str spec.session_name)
  unfolding service_object child get_field
  service_object-name = refl

  ingress_object-name :
      meta "name" (ingress_object api_version namespace spec) ≡ found (str spec.session_name)
  unfolding ingress_object child get_field
  ingress_object-name = refl

-- The object is there afterwards, as it was if it was there before.
abbrev pub IsPresent :
    {S : Type 0} → (S → Resource → String → Option Value) → Resource → String → S → S → Type 0
IsPresent objects g n s t =
    (v : Value) × (objects t g n ≡ some v) × ((old : Value) → objects s g n ≡ some old → v ≡ old)

module _ {S : Type 0} (c : DynamicClient S) {objects : S → Resource → String → Option Value}
    {IsValid : S → Type 0} (serves : Serves c objects IsValid) where
  -- An ensured object is there afterwards, as it was if it was there before.
  ensure-present :
      (g : Resource) (n : String) (u : Value) (context : Err → Err) (s : S)
      → meta "name" u ≡ found (str n)
      → (ensure c g u context s).0 ≡ ok tt
      → (v : Value) × (objects (ensure c g u context s).1 g n ≡ some v)
        × ((old : Value) → objects s g n ≡ some old → v ≡ old)
  ensure-present g n u context s named h = elim (Result-cases (c.api.create g c.namespace u s).0) [
    | inl (r, done) ↦
        let (v, after, _) = serves.create-stored g n u r s named done in
        let fresh = serves.create-fresh g n u r s named done in
        (v, rw (ensure-state c g u context s) after, λ old before. cc)
    | inr (e, refused) ↦
        let exists : c.api.is_already_exists e ≡ true = unfold ensure in ground arith in
        let (v, before, after) = serves.create-exists g n u s e named refused exists in
        (v, rw (ensure-state c g u context s) after, λ old held. cc)
  ]

  ensure-elsewhere :
      (g h : Resource) (u : Value) (context : Err → Err) (s : S)
      → (g.resource == h.resource) ≡ false
      → objects (ensure c g u context s).1 h ≡ objects s h
  ensure-elsewhere g h u context s d =
      rw (ensure-state c g u context s) (serves.create-elsewhere g h u s d)

  ensure_ingress-IsPresent :
      (spec : ExposureSpec) (s : S)
      → (ensure_ingress c spec s).0 ≡ ok tt
      → spec.host ≢ ""
      → IsPresent objects c.ing_gvr spec.session_name s (ensure_ingress c spec s).1
  unfolding ensure_ingress
  ensure_ingress-IsPresent spec s h public = elim (Bool-cases (spec.host == "")) [
    | inl private ↦ absurd (public ((eq_iff spec.host "").0 private))
    | inr hosted ↦
        let named = ingress_object-name c.claim_api_version c.namespace spec in
        rw (ensure_ingress, hosted)
          (ensure-present c.ing_gvr spec.session_name _ _ s named
            (rw (ensure_ingress, hosted) at h))
  ]

  ensure_ingress-services :
      (spec : ExposureSpec) (s : S)
      → (c.ing_gvr.resource == c.svc_gvr.resource) ≡ false
      → objects (ensure_ingress c spec s).1 c.svc_gvr ≡ objects s c.svc_gvr
  unfolding ensure_ingress
  ensure_ingress-services spec s d = elim (Bool-cases (spec.host == "")) [
    | inl private ↦ rw (ensure_ingress, private) refl
    | inr hosted ↦ rw (ensure_ingress, hosted) (ensure-elsewhere c.ing_gvr c.svc_gvr _ _ s d)
  ]

  ensure_service-IsPresent :
      (spec : ExposureSpec) (s : S)
      → (ensure_service c spec s).0 ≡ ok tt
      → IsPresent objects c.svc_gvr spec.session_name s (ensure_service c spec s).1
  unfolding ensure_service
  ensure_service-IsPresent spec s h =
      let named = service_object-name c.claim_api_version c.namespace spec in
      ensure-present c.svc_gvr spec.session_name _ _ s named h

  ensure_service-ingresses :
      (spec : ExposureSpec) (s : S)
      → (c.svc_gvr.resource == c.ing_gvr.resource) ≡ false
      → objects (ensure_service c spec s).1 c.ing_gvr ≡ objects s c.ing_gvr
  unfolding ensure_service
  ensure_service-ingresses spec s d = ensure-elsewhere c.svc_gvr c.ing_gvr _ _ s d

  exposed :
      (spec : ExposureSpec) (s : S)
      → (c.ing_gvr.resource == c.svc_gvr.resource) ≡ false
      → (c.svc_gvr.resource == c.ing_gvr.resource) ≡ false
      → (ensure_exposure c spec s).0 ≡ ok tt
      → (spec.selector ≢ "")
        × IsPresent objects c.svc_gvr spec.session_name s (ensure_exposure c spec s).1
        × (spec.host ≢ ""
            → IsPresent objects c.ing_gvr spec.session_name s (ensure_exposure c spec s).1)
  unfolding ensure_exposure
  exposed spec s d e h = elim (Bool-cases (spec.selector == "")) [
    | inl unbound ↦ absurd (ground arith)
    | inr bound ↦ elim (Done-cases (ensure_service c spec s).0) [
      | inr (e', refused) ↦ absurd (ground arith)
      | inl done ↦
          let t = (ensure_service c spec s).1 in
          let services = ensure_ingress-services spec t d in
          let ingressed : (ensure_ingress c spec t).0 ≡ ok tt = ground arith in
          let (v, after, kept) = ensure_service-IsPresent spec s done in
          let ingresses = ensure_service-ingresses spec s e in
          rw (ensure_exposure, bound, done)
            (
              (λ empty. cc ((eq_iff spec.selector "").1 empty)),
              (v, ap (λ f. f spec.session_name) services ∙ after, kept),
              λ public.
                  let (i, there, same) = ensure_ingress-IsPresent spec t ingressed public in
                  (
                    i,
                    there,
                    λ old before. same old (ap (λ f. f spec.session_name) ingresses ∙ before),
                  ),
            )
    ]
  ]

-- An EnsureExposure that succeeds was given a selector, and leaves a Service of the session's name
-- and, with a host, an Ingress of that name; either one is as it was if it was there before.
pub ensure_exposure-exposes :
    {S : Type 0} (api : Api S) (access : Accessors) (opts : Options)
    {objects : S → Resource → String → Option Value} {IsValid : S → Type 0}
    → Serves (new_with_interface api access opts) objects IsValid
    → (spec : ExposureSpec) (s : S)
    → (ensure_exposure (new_with_interface api access opts) spec s).0 ≡ ok tt
    → (spec.selector ≢ "")
      × IsPresent objects
          (new_with_interface api access opts).svc_gvr
          spec.session_name
          s
          (ensure_exposure (new_with_interface api access opts) spec s).1
      × (spec.host ≢ ""
          → IsPresent objects
              (new_with_interface api access opts).ing_gvr
              spec.session_name
              s
              (ensure_exposure (new_with_interface api access opts) spec s).1)
ensure_exposure-exposes api access opts serves spec s h =
    exposed (new_with_interface api access opts) serves spec s refl refl h
