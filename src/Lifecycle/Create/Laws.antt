-- ===== src/Lifecycle/Create/Laws.antt =====
-- The errors of Create: what it refuses, and the rollback (lifecycle/manager.go).
use hermes_cluster.Base.{
  String, ◌≡◌, refl, ap, true, false, List, [], ◌∷◌, ◌==◌, eq_iff, arith, inl, inr, ◌⊎◌,
}
use hermes_cluster.Base.Errors.{
  Err, Sentinel, sentinel, wrap, errors_is, connector_disabled, invalid_id,
}
use hermes_cluster.Base.Exec.{ok, err, Done-cases, Result-cases}
use hermes_cluster.Session.Id.{validate_id}
use hermes_cluster.K8s.Contract.{View, Contract}
use hermes_cluster.Lifecycle.{Manager, World, RouteKey, CreateRequest}
use hermes_cluster.Lifecycle.Create.Refused.{IsRefused, provision_and_bind_refused}
use hermes_cluster.Lifecycle.Create.{
  wants_connector, spec_of, route_of, choose_id, bind_routes, provision_and_bind, settle, connect,
  create_as, create,
}

module _ {KS CS AS : Type 0} (m : Manager KS CS AS) where
  pub choose_id-k8s_state :
      (id : String) (w : World KS CS AS) → (choose_id m id w).1.k8s_state ≡ w.k8s_state
  unfolding choose_id
  choose_id-k8s_state id w = ground arith

  choose_id-connector_state :
      (id : String) (w : World KS CS AS) → (choose_id m id w).1.connector_state ≡ w.connector_state
  unfolding choose_id
  choose_id-connector_state id w = ground arith

  -- An id that the request gives is the session's, once it is found valid.
  pub choose_id_given :
      (id chosen : String) (w : World KS CS AS)
      → (id == "") ≡ false
      → (choose_id m id w).0 ≡ ok chosen
      → (chosen ≡ id) × (validate_id id ≡ ok tt)
  unfolding choose_id
  choose_id_given id chosen w given h = elim (Done-cases (validate_id id)) [
    | inl valid ↦ (ground arith, valid)
    | inr (e, invalid) ↦ absurd (ground arith)
  ]

  -- The only error of the choice is an invalid id.
  choose_id_invalid :
      (id : String) (e : Err) (w : World KS CS AS)
      → (choose_id m id w).0 ≡ err e
      → errors_is e invalid_id ≡ true
  unfolding choose_id validate_id errors_is
  choose_id_invalid id e w h = ground arith

  bind_routes-k8s_state :
      (id : String) (keys : List RouteKey) (w : World KS CS AS)
      → (bind_routes m id keys w).1.k8s_state ≡ w.k8s_state
  unfolding bind_routes
  bind_routes-k8s_state id [] w = refl
  bind_routes-k8s_state id (key ∷ keys) w =
      let answer = m.connector.set_route (route_of m.defaults id key) w.connector_state in
      elim (Done-cases answer.0) [
        | inl done ↦
            rw (done, bind_routes)
              (bind_routes-k8s_state id keys (record w { connector_state = answer.1 }))
        | inr (e, refused) ↦ rw (refused, bind_routes) refl
      ]

  -- Provisioning and binding speak to the connector only.
  pub provision_and_bind-k8s_state :
      (id : String) (req : CreateRequest) (w : World KS CS AS)
      → (provision_and_bind m id req w).1.k8s_state ≡ w.k8s_state
  unfolding provision_and_bind
  provision_and_bind-k8s_state id req w = grind (arith, bind_routes-k8s_state id req.route_keys)

  -- A request that needs the connector while the integration is off is refused before anything is
  -- written: neither Kubernetes nor the connector has been called. The error is the one that says
  -- so, or the one that says the id is invalid.
  pub create_disabled :
      (req : CreateRequest) (w : World KS CS AS)
      → wants_connector req ≡ true
      → m.connector.enabled ≡ false
      → (e : Err) × ((create m req w).0 ≡ err e)
        × ((e ≡ sentinel connector_disabled) ⊎ (errors_is e invalid_id ≡ true))
        × ((create m req w).1.k8s_state ≡ w.k8s_state)
        × ((create m req w).1.connector_state ≡ w.connector_state)
  unfolding create
  create_disabled req w wants off = elim (Result-cases (choose_id m req.id w).0) [
    | inr (e, invalid) ↦ (
      e,
      ground arith,
      inr (choose_id_invalid req.id e w invalid),
      ground (arith, choose_id-k8s_state req.id w),
      ground (arith, choose_id-connector_state req.id w),
    )
    | inl (id, chosen) ↦ (
      sentinel connector_disabled,
      ground arith,
      inl refl,
      ground (arith, choose_id-k8s_state req.id w),
      ground (arith, choose_id-connector_state req.id w),
    )
  ]

  -- What the rollback does after a failed provisioning.
  connect_failed :
      (id : String) (req : CreateRequest) (w : World KS CS AS) (e : Err)
      → wants_connector req ≡ true
      → (provision_and_bind m id req w).0 ≡ err e
      → ((connect m id req w).0 ≡ err (wrap "connector provision failed" e))
        × ((connect m id req w).1.k8s_state ≡ (m.k8s.delete_claim id w.k8s_state).1)
  unfolding connect settle
  connect_failed id req w e wants failed =
      (ground arith, ground (arith, provision_and_bind-k8s_state id req w))

module _ {KS CS AS : Type 0} (m : Manager KS CS AS) {view : KS → View} {Sane : KS → Type 0}
    (k : Contract m.k8s view Sane) where
  -- The claim that was created and deleted again has left no trace.
  created_deleted :
      (d : String) (req : CreateRequest) (s : KS) (j : String)
      → Sane s
      → (m.k8s.create_claim (spec_of m.defaults d req) s).0 ≡ ok tt
      → (m.k8s.delete_claim d (m.k8s.create_claim (spec_of m.defaults d req) s).1).0 ≡ ok tt
      → (view (m.k8s.delete_claim d (m.k8s.create_claim (spec_of m.defaults d req) s).1).1).claim j
        ≡ (view s).claim j
  created_deleted d req s j sane created deleted =
      let spec = spec_of m.defaults d req in
      ground (
        arith,
        k.delete_claim-ok d _ j (k.create_claim-Sane spec s sane) deleted,
        k.create_claim-fresh spec s sane created,
        k.create_claim-others spec s j sane created,
        eq_iff d j,
      )

  create_as-rolls_back :
      (req : CreateRequest) (id : String) (w : World KS CS AS) (s : KS) (e : Err)
      → Sane w.k8s_state
      → wants_connector req ≡ true
      → m.k8s.create_claim (spec_of m.defaults id req) w.k8s_state ≡ (ok tt, s)
      → (provision_and_bind m id req (record w { k8s_state = s })).0 ≡ err e
      → (m.k8s.delete_claim id s).0 ≡ ok tt
      → ((create_as m id req w).0 ≡ err (wrap "connector provision failed" e))
        × ((create_as m id req w).1.k8s_state ≡ (m.k8s.delete_claim id s).1)
  unfolding create_as
  create_as-rolls_back req id w s e sane wants created failed deleted =
      let facts = connect_failed m id req (record w { k8s_state = s }) e wants failed in
      (rw created (ground arith), rw created (ground arith))

  rolls_back_with :
      (req : CreateRequest) (w : World KS CS AS) (id : String) (w₁ : World KS CS AS) (s : KS)
      (e : Err)
      → Sane w.k8s_state
      → wants_connector req ≡ true
      → m.connector.enabled ≡ true
      → choose_id m req.id w ≡ (ok id, w₁)
      → m.k8s.create_claim (spec_of m.defaults id req) w₁.k8s_state ≡ (ok tt, s)
      → (provision_and_bind m id req (record w₁ { k8s_state = s })).0 ≡ err e
      → (m.k8s.delete_claim id s).0 ≡ ok tt
      → ((create m req w).0 ≡ err (wrap "connector provision failed" e))
        × ((j : String) → (view (create m req w).1.k8s_state).claim j ≡ (view w.k8s_state).claim j)
  unfolding create
  rolls_back_with req w id w₁ s e sane wants on chosen created failed deleted =
      let start : w₁.k8s_state ≡ w.k8s_state =
        ground (arith, choose_id-k8s_state m req.id w, chosen) in
      let path : create m req w ≡ create_as m id req w₁ = rw (chosen, wants, on) refl in
      let (answer, final) =
        create_as-rolls_back req id w₁ s e (rw start sane) wants created failed deleted in
      let done : (m.k8s.create_claim (spec_of m.defaults id req) w₁.k8s_state).0 ≡ ok tt =
        ap (λ p. p.0) created in
      let reached : (m.k8s.create_claim (spec_of m.defaults id req) w₁.k8s_state).1 ≡ s =
        ap (λ p. p.1) created in
      (
        rw path answer,
        λ j.
            rw (path, final)
              (ground (
                arith,
                created_deleted id req w₁.k8s_state j (rw start sane) done (rw reached deleted),
                reached,
                start,
              )),
      )

  -- After the claim was created, let the connector refuse to provision the instance, or provision it
  -- and refuse to bind one of the chats, with an error e. Then Create fails with an error of the same
  -- kind, and, where the rollback could delete the claim, the claims are what they were before the
  -- request.
  pub create-rolls_back :
      (req : CreateRequest) (w : World KS CS AS) (id : String) (w₁ : World KS CS AS) (s : KS)
      (e : Err)
      → Sane w.k8s_state
      → wants_connector req ≡ true
      → m.connector.enabled ≡ true
      → choose_id m req.id w ≡ (ok id, w₁)
      → m.k8s.create_claim (spec_of m.defaults id req) w₁.k8s_state ≡ (ok tt, s)
      → IsRefused m id req w.connector_state e
      → (m.k8s.delete_claim id s).0 ≡ ok tt
      → (f : Err) × ((create m req w).0 ≡ err f)
        × ((kind : Sentinel) → errors_is f kind ≡ errors_is e kind)
        × ((j : String) → (view (create m req w).1.k8s_state).claim j ≡ (view w.k8s_state).claim j)
  unfolding errors_is
  create-rolls_back req w id w₁ s e sane wants on chosen created refused deleted =
      let same : w₁.connector_state ≡ w.connector_state =
        ground (arith, choose_id-connector_state m req.id w, chosen) in
      let (f, failed, kind) =
        provision_and_bind_refused m id req (record w₁ { k8s_state = s }) e (rw same refused) in
      let (answer, claims) =
        rolls_back_with req w id w₁ s f sane wants on chosen created failed deleted in
      (wrap "connector provision failed" f, answer, kind, claims)
