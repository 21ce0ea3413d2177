-- ===== src/Lifecycle/Read/Laws.antt =====
-- What the reads of the manager return and leave alone (lifecycle/manager.go).
use hermes_cluster.Base.{
  String, ◌≡◌, refl, ap, ◌∙◌, sym, Option, none, some, arith, inl, inr, ◌⊎◌, is_some, Bool-cases,
}
use hermes_cluster.Base.Exec.{ok, err, Result-cases, continue}
use hermes_cluster.Base.Errors.{Err}
use hermes_cluster.Clock.{whole_seconds}
use hermes_cluster.Session.{Session, ConnectorView, derive, anno_display_name}
use hermes_cluster.K8s.{Claim, Sandbox}
use hermes_cluster.K8s.Contract.{View, Contract}
use hermes_cluster.Lifecycle.{Manager, World, annotation, sandbox_name_of}
use hermes_cluster.Lifecycle.Durations.{effective_ttl, effective_idle_timeout}
use hermes_cluster.Lifecycle.Read.{
  facts_of, mode_of, sandbox, cached_or_fetch, instances, session_connector, uses_connector,
  assemble, get,
}

module _ {KS CS AS : Type 0} (m : Manager KS CS AS) where
  -- The list of instances comes from the connector alone.
  pub instances-k8s_state : (w : World KS CS AS) → (instances m w).1.k8s_state ≡ w.k8s_state
  unfolding instances cached_or_fetch
  instances-k8s_state w = ground arith

  session_connector-k8s_state :
      (c : Claim) (w : World KS CS AS) → (session_connector m c w).1.k8s_state ≡ w.k8s_state
  unfolding session_connector
  session_connector-k8s_state c w = ground (arith, instances-k8s_state w)

  -- What assemble makes of a claim and of its sandbox.
  pub record IsAssembled (c : Claim) (b : Option Sandbox) (s : Session) : Type 0 where
    pub id : s.id ≡ c.name
    pub state : s.state ≡ derive (facts_of c b)
    pub operating_mode : s.operating_mode ≡ mode_of b
    pub created_at : s.created_at ≡ c.created_at
    pub ttl_seconds : s.ttl_seconds ≡ whole_seconds (effective_ttl m.defaults c)
    pub idle_timeout_seconds :
        s.idle_timeout_seconds ≡ whole_seconds (effective_idle_timeout m.defaults c)
    pub display_name : s.display_name ≡ annotation anno_display_name c
    pub connector : is_some s.connector ≡ uses_connector m c

  session_connector-is_some :
      (c : Claim) (w : World KS CS AS) (v : Option ConnectorView)
      → (session_connector m c w).0 ≡ ok v
      → is_some v ≡ uses_connector m c
  unfolding session_connector
  session_connector-is_some c w v h = elim (Bool-cases (uses_connector m c)) [
    | inr off ↦ ground arith
    | inl on ↦ elim (Result-cases (instances m w).0) [
      | inr (e, failed) ↦ absurd (ground arith)
      | inl (known, listed) ↦ ground arith
    ]
  ]

  assemble-IsAssembled :
      (c : Claim) (w : World KS CS AS) (s : Session)
      → (assemble m c w).0 ≡ ok s
      → (b : Option Sandbox) × ((sandbox m c w).0 ≡ ok b) × IsAssembled c b s
  unfolding assemble
  assemble-IsAssembled c w s h = elim (Result-cases (sandbox m c w).0) [
    | inr (e, unread) ↦ absurd (ground arith)
    | inl (b, read) ↦ elim (Result-cases (session_connector m c (sandbox m c w).1).0) [
      | inr (e, unread) ↦ absurd (ground arith)
      | inl (v, known) ↦
          let there = session_connector-is_some c (sandbox m c w).1 v known in
          (b, read, ground arith)
    ]
  ]

module _ {KS CS AS : Type 0} (m : Manager KS CS AS) {view : KS → View} {Sane : KS → Type 0}
    (k : Contract m.k8s view Sane) where
  pub sandbox-view :
      (c : Claim) (w : World KS CS AS)
      → Sane w.k8s_state
      → view (sandbox m c w).1.k8s_state ≡ view w.k8s_state
  unfolding sandbox
  sandbox-view c w s = ground (arith, k.get_sandbox-view (sandbox_name_of c) w.k8s_state s)

  assemble-k8s_state :
      (c : Claim) (w : World KS CS AS) → (assemble m c w).1.k8s_state ≡ (sandbox m c w).1.k8s_state
  unfolding assemble
  assemble-k8s_state c w = ground (arith, session_connector-k8s_state m c (sandbox m c w).1)

  -- A sandbox that was read is the one that the cluster holds under the claim's sandbox name.
  pub sandbox-held :
      (c : Claim) (w : World KS CS AS) (b : Sandbox)
      → Sane w.k8s_state
      → (sandbox m c w).0 ≡ ok (some b)
      → (view w.k8s_state).sandbox (sandbox_name_of c) ≡ some b
  unfolding sandbox
  sandbox-held c w b s h =
      elim (Result-cases (m.k8s.get_sandbox (sandbox_name_of c) w.k8s_state).0) [
        | inr (e, unread) ↦ absurd (ground arith)
        | inl (d, read) ↦
            ground (arith, (k.get_sandbox-ok (sandbox_name_of c) w.k8s_state d s read).0)
      ]

  -- Where the sandbox comes from: it could not be read, or it is the one that the cluster holds.
  abbrev pub IsRead : Claim → Option Sandbox → KS → View → Type 0
  IsRead c b s v =
      ((b ≡ none) × (e : Err) × ((m.k8s.get_sandbox (sandbox_name_of c) s).0 ≡ err e))
      ⊎ (b ≡ v.sandbox (sandbox_name_of c))

  sandbox-IsRead :
      (c : Claim) (w : World KS CS AS) (b : Option Sandbox) (v : View)
      → Sane w.k8s_state
      → view w.k8s_state ≡ v
      → (sandbox m c w).0 ≡ ok b
      → IsRead c b w.k8s_state v
  unfolding sandbox
  sandbox-IsRead c w none v s e h =
      elim (Result-cases (m.k8s.get_sandbox (sandbox_name_of c) w.k8s_state).0) [
        | inr (failure, unread) ↦ inl (refl, failure, unread)
        | inl (d, read) ↦ absurd (ground arith)
      ]
  sandbox-IsRead c w (some b) v s e h =
      inr (sym (sandbox-held c w b s h) ∙ ap (λ u. u.sandbox (sandbox_name_of c)) e)

  -- A session that is read is assembled from a claim of that id, and the cluster is left alone.
  pub get-IsAssembled :
      (id : String) (w : World KS CS AS) (s : Session)
      → Sane w.k8s_state
      → (get m id w).0 ≡ ok s
      → (c : Claim) × (b : Option Sandbox) × ((view w.k8s_state).claim id ≡ some c)
        × IsRead c b (m.k8s.get_claim id w.k8s_state).1 (view w.k8s_state)
        × IsAssembled m c b s
        × (s.id ≡ id)
        × (view (get m id w).1.k8s_state ≡ view w.k8s_state)
  unfolding get
  get-IsAssembled id w s sane h = elim (Result-cases (m.k8s.get_claim id w.k8s_state).0) [
    | inr (e, missing) ↦ absurd (ground arith)
    | inl (c, found) ↦
        let w₁ : World KS CS AS = record w { k8s_state = (m.k8s.get_claim id w.k8s_state).1 } in
        let same = k.get_claim-view id w.k8s_state sane in
        let sane₁ = k.get_claim-Sane id w.k8s_state sane in
        let (held, named) = k.get_claim-ok id w.k8s_state c sane found in
        let path : get m id w ≡ assemble m c w₁ = rw (found, continue) refl in
        let (b, read, shown) = assemble-IsAssembled m c w₁ s (ap (λ r. r.0) (sym path) ∙ h) in
        (
          c,
          b,
          held,
          sandbox-IsRead c w₁ b (view w.k8s_state) sane₁ same read,
          shown,
          shown.id ∙ named,
          rw (path, assemble-k8s_state c w₁) (sandbox-view c w₁ sane₁ ∙ same),
        )
  ]
