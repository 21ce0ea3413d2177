-- ===== src/Sweeper/Sweep/Laws.antt =====
-- What one sweep leaves alone (sweeper/runner.go), for any client that keeps the contract.
use mathlib.Core.List.{Memᴰ}
use hermes_cluster.Base.{
  String, ◌≡◌, refl, ap, ◌∙◌, inl, inr, Bool, true, ◌&&◌, Option, none, some, List, [], ◌∷◌, eq_iff,
  if◌then◌else◌, arith,
}
use hermes_cluster.Base.Dict.{Dict}
use hermes_cluster.Base.Exec.{ok, pure, Result-cases, continue, ◌>>=◌, ◌>>◌}
use hermes_cluster.Base.Frame.{Within, pure-Within, bind-Within, if-Within, branch-Within}
use hermes_cluster.Clock.{Time}
use hermes_cluster.K8s.{Claim}
use hermes_cluster.K8s.Contract.{View, Contract}
use hermes_cluster.Connector.{Instance}
use hermes_cluster.Lifecycle.{World, now}
use hermes_cluster.Lifecycle.Read.{instances}
use hermes_cluster.Lifecycle.Frame.{instances-Leaves}
use hermes_cluster.Sweeper.{Runner, Sweeping, on_world}
use hermes_cluster.Sweeper.Sweep.{
  sweep_live, sweep_claim, sweep_claims, prune, reconcile_with, conclude, sweep_listed, sweep,
}
use hermes_cluster.Sweeper.Sweep.Frame.{Spares, Spares-Preorder, sweep_live-Spares}

module _ {KS CS AS : Type 0} (r : Runner KS CS AS) {view : KS → View} {Sane : KS → Type 0}
    (k : Contract r.manager.k8s view Sane) (j : String) where
  sweep_claim-Spares :
      (known : Option (Dict Instance)) (t : Time) (c : Claim)
      → (c.name ≡ j → c.terminating ≡ true)
      → Within (Spares r k j) (sweep_claim r known t c)
  unfolding sweep_claim
  sweep_claim-Spares known t c spared =
      branch-Within (Spares-Preorder r k j) c.terminating (pure tt) (sweep_live r known t c)
        (λ _. pure-Within (Spares-Preorder r k j) tt)
        (λ lives. sweep_live-Spares r k j known t c (ground (arith, eq_iff c.name j, spared)))

  sweep_claims-Spares :
      (known : Option (Dict Instance)) (t : Time) (claims : List Claim)
      → ((c : Claim) → Memᴰ c claims → c.name ≡ j → c.terminating ≡ true)
      → Within (Spares r k j) (sweep_claims r known t claims)
  unfolding sweep_claims
  sweep_claims-Spares known t [] spared = pure-Within (Spares-Preorder r k j) tt
  sweep_claims-Spares known t (c ∷ claims) spared =
      bind-Within (Spares-Preorder r k j) (sweep_claim r known t c)
        (λ _. sweep_claims r known t claims)
        (sweep_claim-Spares known t c (spared c (Memᴰ.head refl)))
        (λ _. sweep_claims-Spares known t claims (λ d member. spared d (Memᴰ.tail member)))

  reconcile_with-Spares :
      (claims : List Claim) (known : Option (Dict Instance))
      → Within (Spares r k j) (reconcile_with r claims known)
  unfolding reconcile_with
  reconcile_with-Spares claims none = pure-Within (Spares-Preorder r k j) tt
  reconcile_with-Spares claims (some known) = λ s h. (h, refl)

  conclude-Spares :
      (do_reconcile : Bool) (claims : List Claim) (known : Option (Dict Instance))
      → Within (Spares r k j) (conclude r do_reconcile claims known)
  unfolding conclude prune
  conclude-Spares do_reconcile claims known =
      bind-Within (Spares-Preorder r k j) (prune r claims)
        (λ _.
          if do_reconcile && r.reconciles && r.manager.connector.enabled
          then reconcile_with r claims known
          else pure tt)
        (λ s h. (h, refl))
        (λ _.
          if-Within (Spares-Preorder r k j)
            (do_reconcile && r.reconciles && r.manager.connector.enabled)
            (reconcile_with r claims known) (pure tt) (reconcile_with-Spares claims known)
            (pure-Within (Spares-Preorder r k j) tt))

  sweep_listed-Spares :
      (do_reconcile : Bool) (claims : List Claim)
      → ((c : Claim) → Memᴰ c claims → c.name ≡ j → c.terminating ≡ true)
      → Within (Spares r k j) (sweep_listed r do_reconcile claims)
  unfolding sweep_listed
  sweep_listed-Spares do_reconcile claims spared =
      bind-Within (Spares-Preorder r k j) (on_world (instances r.manager))
        (λ known. do
          t ← on_world now
          sweep_claims r known t claims
          conclude r do_reconcile claims known)
        (λ s. instances-Leaves r.manager k j s.world)
        (λ known.
          bind-Within (Spares-Preorder r k j) (on_world now)
            (λ t. do sweep_claims r known t claims; conclude r do_reconcile claims known)
            (λ s h. (h, refl))
            (λ t.
              bind-Within (Spares-Preorder r k j) (sweep_claims r known t claims)
                (λ _. conclude r do_reconcile claims known)
                (sweep_claims-Spares known t claims spared)
                (λ _. conclude-Spares do_reconcile claims known)))

  -- A sweep acts on the claims that it listed and that are not being deleted: every other claim is
  -- as it was, whatever the sweep met and wherever it failed.
  pub sweep-Spares :
      (do_reconcile : Bool) (s : Sweeping KS CS AS)
      → Sane s.world.k8s_state
      → ((claims : List Claim)
          → (r.manager.k8s.list_claims s.world.k8s_state).0 ≡ ok claims
          → (c : Claim) → Memᴰ c claims
          → c.name ≡ j
          → c.terminating ≡ true)
      → (view (sweep r do_reconcile s).1.world.k8s_state).claim j ≡ (view s.world.k8s_state).claim j
  unfolding sweep
  sweep-Spares do_reconcile s sane spared =
      let w : World KS CS AS = s.world in
      let t : KS = (r.manager.k8s.list_claims w.k8s_state).1 in
      let s₁ : Sweeping KS CS AS = record s { world = record w { k8s_state = t } } in
      let sane₁ = k.list_claims-Sane w.k8s_state sane in
      let same = ap (λ v. v.claim j) (k.list_claims-view w.k8s_state sane) in
      elim (Result-cases (r.manager.k8s.list_claims w.k8s_state).0) [
        | inr (e, failed) ↦ rw (failed, continue) same
        | inl (claims, listed) ↦
            rw (listed, continue)
              ((sweep_listed-Spares do_reconcile claims (spared claims listed) s₁ sane₁).1 ∙ same)
      ]
