-- ===== src/Lifecycle/Create/Taken.antt =====
-- What the cluster has taken for a Create that succeeds (lifecycle/manager.go).
use hermes_cluster.Base.{String, ◌≡◌, ◌≢◌, ◌⊎◌, eq_iff, refl, arith, inl, inr}
use hermes_cluster.Base.Exec.{ok, Done-cases, continue}
use hermes_cluster.Session.{Session}
use hermes_cluster.K8s.{ClaimSpec}
use hermes_cluster.Lifecycle.{Manager, World, CreateRequest}
use hermes_cluster.Lifecycle.Read.{get}
use hermes_cluster.Lifecycle.Create.{spec_of, settle, connect, create_as}
use hermes_cluster.Lifecycle.Create.Laws.{provision_and_bind-k8s_state}

module _ {KS CS AS : Type 0} (m : Manager KS CS AS) where
  -- Once the connector has taken the session, Kubernetes is as it was.
  pub connect-k8s_state :
      (id : String) (req : CreateRequest) (w : World KS CS AS)
      → (connect m id req w).0 ≡ ok tt
      → (connect m id req w).1.k8s_state ≡ w.k8s_state
  unfolding connect settle
  connect-k8s_state id req w h = ground (arith, provision_and_bind-k8s_state m id req w)

  -- The cluster took a claim of that name, of the pool that the request asks for or else the default
  -- one, and then the session was read.
  pub record IsTaken (req : CreateRequest) (id : String) (before after : KS) : Type 0 where
    pub spec : ClaimSpec
    pub name : spec.name ≡ id
    pub warm_pool :
        ((req.warm_pool ≡ "") × (spec.warm_pool ≡ m.defaults.warm_pool))
        ⊎ ((req.warm_pool ≢ "") × (spec.warm_pool ≡ req.warm_pool))
    pub created : (m.k8s.create_claim spec before).0 ≡ ok tt
    pub read :
        (w : World KS CS AS) × (w.k8s_state ≡ (m.k8s.create_claim spec before).1)
        × (after ≡ (get m id w).1.k8s_state)

  pub create_as-IsTaken :
      (req : CreateRequest) (id : String) (w : World KS CS AS) (s : Session)
      → (create_as m id req w).0 ≡ ok s
      → IsTaken req id w.k8s_state (create_as m id req w).1.k8s_state
  unfolding create_as
  create_as-IsTaken req id w s h =
      let spec = spec_of m.defaults id req in
      let w₁ : World KS CS AS = record w { k8s_state = (m.k8s.create_claim spec w.k8s_state).1 } in
      elim (Done-cases (m.k8s.create_claim spec w.k8s_state).0) [
        | inr (e, refused) ↦ absurd (ground arith)
        | inl created ↦ elim (Done-cases (connect m id req w₁).0) [
          | inr (e, failed) ↦ absurd (ground arith)
          | inl connected ↦ record {
            spec = spec;
            name = refl;
            warm_pool = ground (arith, eq_iff req.warm_pool "");
            created = created;
            read = (
              (connect m id req w₁).1,
              connect-k8s_state id req w₁ connected,
              rw (created, continue, connected, continue) refl,
            );
          }
        ]
      ]
