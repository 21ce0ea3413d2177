-- ===== src/Lifecycle/Control/Unmanaged.antt =====
-- What the real client's guard means for a claim that is not the manager's (lifecycle/manager.go,
-- k8s/dynamic.go).
use hermes_cluster.Base.{String, ◌≡◌, none, arith, ◌==◌, refl, false, not, ◌&&◌}
use hermes_cluster.Base.Dict.{lookup}
use hermes_cluster.Base.Errors.{sentinel, wrap, not_found}
use hermes_cluster.Base.Exec.{ok, err}
use hermes_cluster.Session.{managed_label}
use hermes_cluster.K8s.{Claim}
use hermes_cluster.K8s.Value.{Value}
use hermes_cluster.K8s.Unstructured.{claim_from_unstructured}
use hermes_cluster.K8s.Dynamic.{DynamicClient, is_managed, value_of, get_claim}
use hermes_cluster.K8s.Dynamic.Exposure.{dynamic_client}
use hermes_cluster.Lifecycle.{Manager, World}
use hermes_cluster.Lifecycle.Control.{wake, restart, decommission}

unmarked_fails : (a b : String) → a ≡ "" → b ≡ "" → not (a == "" && not (b == "true")) ≡ false
unmarked_fails a b p q = rw (p, q)

module _ {KS CS AS : Type 0} (c : DynamicClient KS) where
  -- the manager on a real cluster
  abbrev pub on_cluster : Manager KS CS AS → Manager KS CS AS
  on_cluster m = record m { k8s = dynamic_client c }

  -- the world after reading a claim
  abbrev pub after_read : String → World KS CS AS → World KS CS AS
  after_read id w = record w { k8s_state = (c.api.get c.claim_gvr c.namespace id w.k8s_state).1 }

module _ {KS CS AS : Type 0} (c : DynamicClient KS) (m : Manager KS CS AS) (id : String)
    (w : World KS CS AS) where
  get_claim-unmanaged :
      (u : Value) (claim : Claim)
      → (c.api.get c.claim_gvr c.namespace id w.k8s_state).0 ≡ ok u
      → claim_from_unstructured c.access u ≡ ok claim
      → lookup managed_label claim.annotations ≡ none
      → lookup managed_label (c.access.get_labels u) ≡ none
      → get_claim c id w.k8s_state
        ≡ (err (wrap id (sentinel not_found)), (after_read c id w).k8s_state)
  unfolding get_claim
  get_claim-unmanaged u claim got read bare unlabelled =
      let hidden : is_managed c u claim ≡ false =
        unmarked_fails (value_of managed_label claim.annotations)
          (value_of managed_label (c.access.get_labels u)) (ground arith) (ground arith) in
      ground arith

  -- A claim of the namespace that bears neither the managed annotation nor the managed label is out
  -- of reach: to wake, restart or decommission it fails with ErrNotFound, and all that was called is
  -- the read of the claim.
  pub unmanaged-untouched :
      (u : Value) (claim : Claim)
      → (c.api.get c.claim_gvr c.namespace id w.k8s_state).0 ≡ ok u
      → claim_from_unstructured c.access u ≡ ok claim
      → lookup managed_label claim.annotations ≡ none
      → lookup managed_label (c.access.get_labels u) ≡ none
      → (wake (on_cluster c m) id w ≡ (err (wrap id (sentinel not_found)), after_read c id w))
        × (restart (on_cluster c m) id w ≡ (err (wrap id (sentinel not_found)), after_read c id w))
        × (decommission (on_cluster c m) id w
            ≡ (err (wrap id (sentinel not_found)), after_read c id w))
  unfolding wake restart decommission
  unmanaged-untouched u claim got read bare unlabelled =
      let hidden = get_claim-unmanaged u claim got read bare unlabelled in
      (rw hidden refl, rw hidden refl, rw hidden refl)
