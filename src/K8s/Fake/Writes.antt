-- ===== src/K8s/Fake/Writes.antt =====
-- The writes of the in-memory client.
use hermes_cluster.Base.{
  String, ◌≡◌, true, false, Option, none, some, arith, ◌==◌, eq_iff, if◌then◌else◌,
}
use hermes_cluster.Base.Dict.{Dict, lookup, lookup-insert, lookup-erase}
use hermes_cluster.Base.Errors.{Err, not_found, errors_is}
use hermes_cluster.Base.Exec.{ok, err}
use hermes_cluster.K8s.{ClaimSpec, ExposureSpec}
use hermes_cluster.K8s.Fake.{
  Fake, new_claim, new_sandbox, list_claims, ensure_exposure, create_claim, delete_claim,
  patch_claim_annotations, patch_sandbox_operating_mode,
}
use hermes_cluster.K8s.Fake.Reads.{Sane, view}

module _ (spec : ClaimSpec) (f : Fake) where
  pub create_claim-Sane : Sane f → Sane (create_claim spec f).1
  unfolding create_claim
  create_claim-Sane s = record {
    claim_names = λ n c h. ground (
      arith,
      s.claim_names n c,
      eq_iff spec.name n,
      lookup-insert spec.name n (new_claim spec f) f.claims,
    );
    sandbox_names = λ n b h. ground (
      arith,
      s.sandbox_names n b,
      eq_iff spec.name n,
      lookup-insert spec.name n (new_sandbox spec f) f.sandboxes,
    );
    outage = λ e h. ground (arith, s.outage e);
  }

  pub create_claim-fresh : (create_claim spec f).0 ≡ ok tt → lookup spec.name f.claims ≡ none
  unfolding create_claim
  create_claim-fresh h = ground arith

  pub create_claim-stored :
      (j : String)
      → (create_claim spec f).0 ≡ ok tt
      → lookup j (create_claim spec f).1.claims
        ≡ (if spec.name == j then some (new_claim spec f) else lookup j f.claims)
  unfolding create_claim
  create_claim-stored j h = ground (arith, lookup-insert spec.name j (new_claim spec f) f.claims)

pub list_claims-state : (f : Fake) → (list_claims f).1 ≡ f
unfolding list_claims
list_claims-state f = ground arith

module _ (spec : ExposureSpec) (f : Fake) where
  pub ensure_exposure-Sane : Sane f → Sane (ensure_exposure spec f).1
  unfolding ensure_exposure
  ensure_exposure-Sane s = record {
    claim_names = λ j c h. ground (arith, s.claim_names j c);
    sandbox_names = λ j b h. ground (arith, s.sandbox_names j b);
    outage = λ e h. ground (arith, s.outage e);
  }

  pub ensure_exposure-view : view (ensure_exposure spec f).1 ≡ view f
  unfolding ensure_exposure
  ensure_exposure-view = ground arith

module _ (n : String) (f : Fake) where
  pub delete_claim-Sane : Sane f → Sane (delete_claim n f).1
  unfolding delete_claim
  delete_claim-Sane s = record {
    claim_names = λ j c h. ground (arith, s.claim_names j c, lookup-erase n j f.claims);
    sandbox_names = λ j b h. grind (arith, s.sandbox_names j b, lookup-erase);
    outage = λ e h. ground (arith, s.outage e);
  }

  pub delete_claim-others :
      (j : String) → (n == j) ≡ false → lookup j (delete_claim n f).1.claims ≡ lookup j f.claims
  unfolding delete_claim
  delete_claim-others j h = ground (arith, lookup-erase n j f.claims)

  pub delete_claim-gone :
      (j : String)
      → (delete_claim n f).0 ≡ ok tt
      → lookup j (delete_claim n f).1.claims ≡ (if n == j then none else lookup j f.claims)
  unfolding delete_claim
  delete_claim-gone j h = ground (arith, lookup-erase n j f.claims)

  pub delete_claim-missing :
      (e : Err)
      → Sane f
      → (delete_claim n f).0 ≡ err e
      → errors_is e not_found ≡ true
      → (lookup n f.claims ≡ none) × ((delete_claim n f).1 ≡ f)
  unfolding delete_claim
  delete_claim-missing e s h m = ground (arith, s.outage e)

  module _ (patch : Dict (Option String)) where
    pub patch_claim_annotations-Sane : Sane f → Sane (patch_claim_annotations n patch f).1
    unfolding patch_claim_annotations
    patch_claim_annotations-Sane s = record {
      claim_names = λ j c h. grind (arith, s.claim_names, eq_iff n j, lookup-insert);
      sandbox_names = λ j b h. ground (arith, s.sandbox_names j b);
      outage = λ e h. ground (arith, s.outage e);
    }

    pub patch_claim_annotations-others :
        (j : String)
        → (n == j) ≡ false
        → lookup j (patch_claim_annotations n patch f).1.claims ≡ lookup j f.claims
    unfolding patch_claim_annotations
    patch_claim_annotations-others j h = grind (arith, lookup-insert)

    pub patch_claim_annotations-sandboxes :
        (patch_claim_annotations n patch f).1.sandboxes ≡ f.sandboxes
    unfolding patch_claim_annotations
    patch_claim_annotations-sandboxes = ground arith

  module _ (mode : String) where
    pub patch_sandbox_operating_mode-Sane : Sane f → Sane (patch_sandbox_operating_mode n mode f).1
    unfolding patch_sandbox_operating_mode
    patch_sandbox_operating_mode-Sane s = record {
      claim_names = λ j c h. ground (arith, s.claim_names j c);
      sandbox_names = λ j b h. grind (arith, s.sandbox_names, eq_iff n j, lookup-insert);
      outage = λ e h. ground (arith, s.outage e);
    }

    pub patch_sandbox_operating_mode-others :
        (j : String)
        → (n == j) ≡ false
        → lookup j (patch_sandbox_operating_mode n mode f).1.sandboxes ≡ lookup j f.sandboxes
    unfolding patch_sandbox_operating_mode
    patch_sandbox_operating_mode-others j h = grind (arith, lookup-insert)

    pub patch_sandbox_operating_mode-claims :
        (patch_sandbox_operating_mode n mode f).1.claims ≡ f.claims
    unfolding patch_sandbox_operating_mode
    patch_sandbox_operating_mode-claims = ground arith
