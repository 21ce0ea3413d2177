-- ===== src/K8s/Contract.antt =====
-- What the rest of the program relies on of a `k8s.Client`: reads report and change nothing, and
-- a write that succeeds has its effect on the object named. Whether or not a write succeeds, the
-- other claims (and, for a change of mode, the other sandboxes) are as they were; more is not assumed
-- of one that fails. The implementation may need its state to be in good order, which is the
-- predicate `Sane`; `view` says what objects such a state stands for.
use hermes_cluster.Base.{String, ◌≡◌, true, false, Option, none, some, ◌==◌, if◌then◌else◌}
use hermes_cluster.Base.Dict.{Dict, lookup}
use hermes_cluster.Base.Errors.{Err, errors_is, not_found}
use hermes_cluster.Base.Exec.{ok, err}
use hermes_cluster.K8s.{Claim, Sandbox, ClaimSpec, ExposureSpec, Client}

-- The claims and the sandboxes of the namespace, by name.
pub record View : Type 0 where
  pub claim : String → Option Claim
  pub sandbox : String → Option Sandbox

-- The value of a key after a merge patch.
abbrev pub patched : Option (Option String) → Option String → Option String
patched none old = old
patched (some new) old = new

-- A claim with the annotations merged, and all else as it was.
pub record IsPatched (patch : Dict (Option String)) (c d : Claim) : Type 0 where
  pub name : d.name ≡ c.name
  pub created_at : d.created_at ≡ c.created_at
  pub terminating : d.terminating ≡ c.terminating
  pub sandbox_name : d.sandbox_name ≡ c.sandbox_name
  pub annotation :
      (k : String) → lookup k d.annotations ≡ patched (lookup k patch) (lookup k c.annotations)

pub record Contract {S : Type 0} (K : Client S) (view : S → View) (Sane : S → Type 0) : Type 0 where
  pub get_claim-Sane : (n : String) (s : S) → Sane s → Sane (K.get_claim n s).1
  pub get_claim-view : (n : String) (s : S) → Sane s → view (K.get_claim n s).1 ≡ view s
  pub get_claim-ok :
      (n : String) (s : S) (c : Claim)
      → Sane s
      → (K.get_claim n s).0 ≡ ok c
      → ((view s).claim n ≡ some c) × (c.name ≡ n)
  pub get_claim-err :
      (n : String) (s : S) (e : Err)
      → Sane s
      → (K.get_claim n s).0 ≡ err e
      → errors_is e not_found ≡ true
      → (view s).claim n ≡ none
  pub get_sandbox-Sane : (n : String) (s : S) → Sane s → Sane (K.get_sandbox n s).1
  pub get_sandbox-view : (n : String) (s : S) → Sane s → view (K.get_sandbox n s).1 ≡ view s
  pub get_sandbox-ok :
      (n : String) (s : S) (b : Sandbox)
      → Sane s
      → (K.get_sandbox n s).0 ≡ ok b
      → ((view s).sandbox n ≡ some b) × (b.name ≡ n)
  pub list_claims-Sane : (s : S) → Sane s → Sane (K.list_claims s).1
  pub list_claims-view : (s : S) → Sane s → view (K.list_claims s).1 ≡ view s
  pub ensure_exposure-Sane :
      (spec : ExposureSpec) (s : S) → Sane s → Sane (K.ensure_exposure spec s).1
  pub ensure_exposure-view :
      (spec : ExposureSpec) (s : S) → Sane s → view (K.ensure_exposure spec s).1 ≡ view s
  pub create_claim-Sane : (spec : ClaimSpec) (s : S) → Sane s → Sane (K.create_claim spec s).1
  pub create_claim-fresh :
      (spec : ClaimSpec) (s : S)
      → Sane s
      → (K.create_claim spec s).0 ≡ ok tt
      → (view s).claim spec.name ≡ none
  pub create_claim-stored :
      (spec : ClaimSpec) (s : S)
      → Sane s
      → (K.create_claim spec s).0 ≡ ok tt
      → (c : Claim) × ((view (K.create_claim spec s).1).claim spec.name ≡ some c)
        × (c.name ≡ spec.name)
        × (c.terminating ≡ false)
        × ((k : String) → lookup k c.annotations ≡ lookup k spec.annotations)
  pub create_claim-others :
      (spec : ClaimSpec) (s : S) (j : String)
      → Sane s
      → (K.create_claim spec s).0 ≡ ok tt
      → (spec.name == j) ≡ false
      → (view (K.create_claim spec s).1).claim j ≡ (view s).claim j
  pub delete_claim-Sane : (n : String) (s : S) → Sane s → Sane (K.delete_claim n s).1
  pub delete_claim-ok :
      (n : String) (s : S) (j : String)
      → Sane s
      → (K.delete_claim n s).0 ≡ ok tt
      → (view (K.delete_claim n s).1).claim j ≡ (if n == j then none else (view s).claim j)
  pub delete_claim-err :
      (n : String) (s : S) (e : Err)
      → Sane s
      → (K.delete_claim n s).0 ≡ err e
      → errors_is e not_found ≡ true
      → ((view s).claim n ≡ none) × (view (K.delete_claim n s).1 ≡ view s)
  pub delete_claim-others :
      (n : String) (s : S) (j : String)
      → Sane s
      → (n == j) ≡ false
      → (view (K.delete_claim n s).1).claim j ≡ (view s).claim j
  pub patch_claim_annotations-Sane :
      (n : String) (patch : Dict (Option String)) (s : S)
      → Sane s
      → Sane (K.patch_claim_annotations n patch s).1
  pub patch_claim_annotations-ok :
      (n : String) (patch : Dict (Option String)) (s : S)
      → Sane s
      → (K.patch_claim_annotations n patch s).0 ≡ ok tt
      → (c d : Claim) × ((view s).claim n ≡ some c)
        × ((view (K.patch_claim_annotations n patch s).1).claim n ≡ some d)
        × IsPatched patch c d
  pub patch_claim_annotations-others :
      (n : String) (patch : Dict (Option String)) (s : S) (j : String)
      → Sane s
      → (n == j) ≡ false
      → (view (K.patch_claim_annotations n patch s).1).claim j ≡ (view s).claim j
  pub patch_claim_annotations-sandbox :
      (n : String) (patch : Dict (Option String)) (s : S)
      → Sane s
      → (view (K.patch_claim_annotations n patch s).1).sandbox ≡ (view s).sandbox
  pub patch_sandbox_operating_mode-Sane :
      (n mode : String) (s : S) → Sane s → Sane (K.patch_sandbox_operating_mode n mode s).1
  pub patch_sandbox_operating_mode-ok :
      (n mode : String) (s : S)
      → Sane s
      → (K.patch_sandbox_operating_mode n mode s).0 ≡ ok tt
      → (b : Sandbox) × ((view (K.patch_sandbox_operating_mode n mode s).1).sandbox n ≡ some b)
        × (b.operating_mode ≡ mode)
  pub patch_sandbox_operating_mode-others :
      (n mode : String) (s : S) (j : String)
      → Sane s
      → (n == j) ≡ false
      → (view (K.patch_sandbox_operating_mode n mode s).1).sandbox j ≡ (view s).sandbox j
  pub patch_sandbox_operating_mode-claim :
      (n mode : String) (s : S)
      → Sane s
      → (view (K.patch_sandbox_operating_mode n mode s).1).claim ≡ (view s).claim
