-- ===== src/Lifecycle/Control/Laws.antt =====
-- What Decommission, Wake and Restart do to the claims and the sandboxes, for any client that keeps
-- the contract (lifecycle/manager.go).
use hermes_cluster.Base.{
  String, ◌≡◌, refl, ap, ◌∙◌, Bool, true, false, none, ◌==◌, eq_iff, arith, inl, inr, if◌then◌else◌,
}
use hermes_cluster.Base.Errors.{Err, wrap, errors_is, no_instance}
use hermes_cluster.Base.Exec.{ok, err, Done-cases, Result-cases}
use hermes_cluster.K8s.{Claim}
use hermes_cluster.K8s.Contract.{View, Contract}
use hermes_cluster.Lifecycle.{Manager, World}
use hermes_cluster.Lifecycle.Read.{uses_connector}
use hermes_cluster.Lifecycle.Control.{purge, remove_claim, decommission}

module _ {KS CS AS : Type 0} (m : Manager KS CS AS) where
  -- The purge speaks to the connector only.
  pub purge-k8s_state :
      (claim : Claim) (id : String) (w : World KS CS AS)
      → (purge m claim id w).1.k8s_state ≡ w.k8s_state
  unfolding purge
  purge-k8s_state claim id w = ground arith

module _ {KS CS AS : Type 0} (m : Manager KS CS AS) {view : KS → View} {Sane : KS → Type 0}
    (k : Contract m.k8s view Sane) where
  remove_claim-gone :
      (id j : String) (w : World KS CS AS)
      → Sane w.k8s_state
      → (remove_claim m id w).0 ≡ ok tt
      → (view (remove_claim m id w).1.k8s_state).claim j
        ≡ (if id == j then none else (view w.k8s_state).claim j)
  unfolding remove_claim
  remove_claim-gone id j w s h = elim (Done-cases (m.k8s.delete_claim id w.k8s_state).0) [
    | inl done ↦ ground (arith, k.delete_claim-ok id w.k8s_state j s done)
    | inr (e, failed) ↦ ground (arith, k.delete_claim-err id w.k8s_state e s failed, eq_iff id j)
  ]

  -- The claims that a client sees after the read and the purge are those before.
  purge-view :
      (claim : Claim) (id : String) (w : World KS CS AS) (s : KS)
      → w.k8s_state ≡ s
      → view (purge m claim id w).1.k8s_state ≡ view s
  purge-view claim id w s e = ap view (purge-k8s_state m claim id w ∙ e)

  -- A decommission that succeeds has removed the session's claim and has left every other claim as
  -- it was.
  pub decommission-gone :
      (id j : String) (w : World KS CS AS) (b : Bool)
      → Sane w.k8s_state
      → (decommission m id w).0 ≡ ok b
      → (view (decommission m id w).1.k8s_state).claim j
        ≡ (if id == j then none else (view w.k8s_state).claim j)
  unfolding decommission
  decommission-gone id j w b s h = elim (Result-cases (m.k8s.get_claim id w.k8s_state).0) [
    | inr (e, missing) ↦ absurd (ground arith)
    | inl (c, found) ↦
        let w₁ : World KS CS AS = record w { k8s_state = (m.k8s.get_claim id w.k8s_state).1 } in
        let w₂ : World KS CS AS = (purge m c id w₁).1 in
        let s₂ : Sane w₂.k8s_state =
          rw (purge-k8s_state m c id w₁) (k.get_claim-Sane id w.k8s_state s) in
        let same : view w₂.k8s_state ≡ view w.k8s_state =
          purge-view c id w₁ w₁.k8s_state refl ∙ k.get_claim-view id w.k8s_state s in
        elim (Done-cases (remove_claim m id w₂).0) [
          | inr (e, kept) ↦ absurd (ground arith)
          | inl done ↦ ground (arith, remove_claim-gone id j w₂ s₂ done, same)
        ]
  ]

  -- If the connector refuses to remove the instance, for any reason but that it has none, the
  -- decommission fails with an error of the same kind and the claims are as they were, so that a
  -- later sweep or a second DELETE can try again.
  pub decommission-retains :
      (id : String) (w : World KS CS AS) (c : Claim) (e : Err)
      → Sane w.k8s_state
      → (m.k8s.get_claim id w.k8s_state).0 ≡ ok c
      → uses_connector m c ≡ true
      → (m.connector.delete_instance id w.connector_state).0 ≡ err e
      → errors_is e no_instance ≡ false
      → ((decommission m id w).0
          ≡ err (wrap "connector deprovision failed (claim retained for retry)" e))
        × (view (decommission m id w).1.k8s_state ≡ view w.k8s_state)
  unfolding decommission purge
  decommission-retains id w c e s found uses refused other =
      (ground arith, ground (arith, k.get_claim-view id w.k8s_state s))

  -- A decommission whose instance the connector no longer has goes on to the claim: it succeeds, and
  -- reports that it removed no instance, if the claim can be deleted.
  pub decommission-already_purged :
      (id : String) (w : World KS CS AS) (c : Claim) (e : Err)
      → Sane w.k8s_state
      → (m.k8s.get_claim id w.k8s_state).0 ≡ ok c
      → uses_connector m c ≡ true
      → (m.connector.delete_instance id w.connector_state).0 ≡ err e
      → errors_is e no_instance ≡ true
      → (m.k8s.delete_claim id (m.k8s.get_claim id w.k8s_state).1).0 ≡ ok tt
      → (decommission m id w).0 ≡ ok false
  unfolding decommission purge remove_claim
  decommission-already_purged id w c e s found uses refused gone deleted = ground arith
