-- ===== src/Lifecycle/Create/Stored.antt =====
-- What a successful Create has stored, and what it returns (lifecycle/manager.go).
use hermes_cluster.Base.{
  ℕ, ◌*◌, ◌<◌, String, ◌≡◌, if◌then◌else◌, refl, ap, ◌∙◌, sym, subst, false, not, ◌&&◌, Option,
  none, some, ◌==◌, arith, Bool-cases, inl, inr,
}
use hermes_cluster.Base.Int.{ℤ, pos, half_range}
use hermes_cluster.Base.Dict.{Dict, lookup, insert}
use hermes_cluster.Base.Decimal.{format_int}
use hermes_cluster.Base.Exec.{ok, Done-cases, Result-cases, continue}
use hermes_cluster.Clock.{whole_seconds, nanoseconds_per_second}
use hermes_cluster.Session.{
  Session, anno_ttl_seconds, anno_idle_timeout_seconds, anno_connector, anno_display_name,
}
use hermes_cluster.K8s.{Claim}
use hermes_cluster.K8s.Contract.{View, Contract}
use hermes_cluster.Lifecycle.{Manager, World, CreateRequest, annotation}
use hermes_cluster.Lifecycle.Durations.{effective_ttl}
use hermes_cluster.Lifecycle.Durations.Laws.{effective_duration_exact_iff}
use hermes_cluster.Lifecycle.Read.{get}
use hermes_cluster.Lifecycle.Read.Laws.{get-IsAssembled}
use hermes_cluster.Session.Id.{validate_id}
use hermes_cluster.Lifecycle.Create.{
  wants_connector, format_bool, annotations_of, spec_of, choose_id, connect, create_as, create,
}
use hermes_cluster.Lifecycle.Create.Taken.{connect-k8s_state, IsTaken, create_as-IsTaken}
use hermes_cluster.Lifecycle.Create.Laws.{choose_id-k8s_state, choose_id_given}

abbrev pub number_text : Option ℤ → Option String
number_text none = none
number_text (some n) = some (format_int n)

-- What the claim's annotations hold: the connector flag always, and the numbers and the display name
-- that were given.
pub record Records (req : CreateRequest) (annotations : Dict String) : Type 0 where
  pub ttl : lookup anno_ttl_seconds annotations ≡ number_text req.ttl_seconds
  pub idle : lookup anno_idle_timeout_seconds annotations ≡ number_text req.idle_timeout_seconds
  pub connector : lookup anno_connector annotations ≡ some (format_bool (wants_connector req))
  pub display_name :
      lookup anno_display_name annotations
      ≡ (if req.display_name == "" then none else some req.display_name)

annotations_of-Records : (req : CreateRequest) → Records req (annotations_of req)
unfolding annotations_of lookup insert
annotations_of-Records req = record {
  ttl = ground arith;
  idle = ground arith;
  connector = ground arith;
  display_name = ground arith;
}

Records-of_same :
    {req : CreateRequest} {a b : Dict String}
    → ((key : String) → lookup key b ≡ lookup key a)
    → Records req a
    → Records req b
Records-of_same e h = record {
  ttl = e anno_ttl_seconds ∙ h.ttl;
  idle = e anno_idle_timeout_seconds ∙ h.idle;
  connector = e anno_connector ∙ h.connector;
  display_name = e anno_display_name ∙ h.display_name;
}

whole_seconds_exact : (n : ℕ) → whole_seconds (pos (n * nanoseconds_per_second)) ≡ pos n
unfolding whole_seconds
whole_seconds_exact n = ap pos (omega arith)

module _ {KS CS AS : Type 0} (m : Manager KS CS AS) {view : KS → View} {Sane : KS → Type 0}
    (k : Contract m.k8s view Sane) where
  -- The claim of a session that Create returned.
  pub record IsStored (req : CreateRequest) (id : String) (s : Session) (before after : View)
      : Type 0 where
    pub fresh : before.claim id ≡ none
    pub stored :
        (c : Claim) × (after.claim id ≡ some c)
        × Records req c.annotations
        × (s.ttl_seconds ≡ whole_seconds (effective_ttl m.defaults c))
    pub named : s.id ≡ id
    pub others : (j : String) → (id == j) ≡ false → after.claim j ≡ before.claim j

  create_as-IsStored :
      (req : CreateRequest) (id : String) (w : World KS CS AS) (s : Session)
      → Sane w.k8s_state
      → (create_as m id req w).0 ≡ ok s
      → IsStored req id s (view w.k8s_state) (view (create_as m id req w).1.k8s_state)
  unfolding create_as
  create_as-IsStored req id w s sane h =
      let spec = spec_of m.defaults id req in
      let w₁ : World KS CS AS = record w { k8s_state = (m.k8s.create_claim spec w.k8s_state).1 } in
      let w₂ : World KS CS AS = (connect m id req w₁).1 in
      elim (Done-cases (m.k8s.create_claim spec w.k8s_state).0) [
        | inr (e, refused) ↦ absurd (ground arith)
        | inl created ↦ elim (Done-cases (connect m id req w₁).0) [
          | inr (e, failed) ↦ absurd (ground arith)
          | inl connected ↦
              let path : create_as m id req w ≡ get m id w₂ =
                rw (created, continue, connected, continue) refl in
              let same : w₂.k8s_state ≡ w₁.k8s_state = connect-k8s_state m id req w₁ connected in
              let sane₁ = k.create_claim-Sane spec w.k8s_state sane in
              let sane₂ : Sane w₂.k8s_state = rw same sane₁ in
              let (c, b, held, source, shown, named, kept) =
                get-IsAssembled m k id w₂ s sane₂ (ap (λ r. r.0) (sym path) ∙ h) in
              let end : view (create_as m id req w).1.k8s_state ≡ view w₁.k8s_state =
                ap (λ r. view r.1.k8s_state) path ∙ kept ∙ ap view same in
              let (d, held_d, name_d, alive, noted) =
                k.create_claim-stored spec w.k8s_state sane created in
              let one : d ≡ c = ground arith in
              record {
                fresh = k.create_claim-fresh spec w.k8s_state sane created;
                stored = (
                  c,
                  ap (λ v. v.claim id) (end ∙ ap view (sym same)) ∙ held,
                  Records-of_same
                      (subst
                        (λ x.
                          (key : String)
                          → lookup key x.annotations ≡ lookup key (annotations_of req))
                        one noted)
                      (annotations_of-Records req),
                  shown.ttl_seconds,
                );
                named = named;
                others = λ j d.
                    ap (λ v. v.claim j) end
                    ∙ k.create_claim-others spec w.k8s_state j sane created d;
              }
        ]
      ]

  created_as :
      (req : CreateRequest) (w : World KS CS AS) (s : Session)
      → (create m req w).0 ≡ ok s
      → (id : String) × ((choose_id m req.id w).0 ≡ ok id)
        × (create m req w ≡ create_as m id req (choose_id m req.id w).1)
  unfolding create
  created_as req w s h = elim (Result-cases (choose_id m req.id w).0) [
    | inr (e, invalid) ↦ absurd (ground arith)
    | inl (id, chosen) ↦ elim (Bool-cases (wants_connector req && not m.connector.enabled)) [
      | inl off ↦ absurd (ground arith)
      | inr on ↦ (id, chosen, rw (chosen, continue, on) refl)
    ]
  ]

  -- A Create that succeeds returns a session whose id no claim had before. Its claim is stored under
  -- that id with the numbers and the display name of the request and the connector flag, and every
  -- other claim is as it was.
  pub create-IsStored :
      (req : CreateRequest) (w : World KS CS AS) (s : Session)
      → Sane w.k8s_state
      → (create m req w).0 ≡ ok s
      → IsStored req s.id s (view w.k8s_state) (view (create m req w).1.k8s_state)
  create-IsStored req w s sane h =
      let (id, chosen, path) = created_as req w s h in
      let w₁ : World KS CS AS = (choose_id m req.id w).1 in
      let same : w₁.k8s_state ≡ w.k8s_state = choose_id-k8s_state m req.id w in
      let there : IsStored req id s (view w₁.k8s_state) (view (create_as m id req w₁).1.k8s_state) =
        create_as-IsStored req id w₁ s (rw same sane) (ap (λ r. r.0) (sym path) ∙ h) in
      rw path (
        subst (λ i. IsStored req i s (view w.k8s_state) (view (create_as m id req w₁).1.k8s_state))
          (sym there.named) (rw same at there))

  -- What the cluster took for a Create that succeeds.
  pub create-IsTaken :
      (req : CreateRequest) (w : World KS CS AS) (s : Session)
      → Sane w.k8s_state
      → (create m req w).0 ≡ ok s
      → IsTaken m req s.id w.k8s_state (create m req w).1.k8s_state
  create-IsTaken req w s sane h =
      let (id, chosen, path) = created_as req w s h in
      let w₁ : World KS CS AS = (choose_id m req.id w).1 in
      let same : w₁.k8s_state ≡ w.k8s_state = choose_id-k8s_state m req.id w in
      let done : (create_as m id req w₁).0 ≡ ok s = ap (λ r. r.0) (sym path) ∙ h in
      let named = (create_as-IsStored req id w₁ s (rw same sane) done).named in
      let there = create_as-IsTaken m req id w₁ s done in
      rw path (
        subst (λ i. IsTaken m req i w.k8s_state (create_as m id req w₁).1.k8s_state) (sym named)
          (rw same at there))

  -- An id that the request gives is valid if the Create succeeds, and is the session's.
  pub create-given_id :
      (req : CreateRequest) (w : World KS CS AS) (s : Session)
      → Sane w.k8s_state
      → (create m req w).0 ≡ ok s
      → (req.id == "") ≡ false
      → (s.id ≡ req.id) × (validate_id req.id ≡ ok tt)
  create-given_id req w s sane h given =
      let (id, chosen, path) = created_as req w s h in
      let w₁ : World KS CS AS = (choose_id m req.id w).1 in
      let there =
        create_as-IsStored req id w₁ s (rw (choose_id-k8s_state m req.id w) sane)
          (ap (λ r. r.0) (sym path) ∙ h) in
      let (own, valid) = choose_id_given m req.id id w given chosen in (there.named ∙ own, valid)

  -- A session that was asked to live for a number of seconds that fits a duration shows that number.
  pub create-ttl :
      (req : CreateRequest) (w : World KS CS AS) (s : Session) (n : ℕ)
      → Sane w.k8s_state
      → (create m req w).0 ≡ ok s
      → req.ttl_seconds ≡ some (pos n)
      → n * nanoseconds_per_second < half_range
      → s.ttl_seconds ≡ pos n
  unfolding effective_ttl
  create-ttl req w s n sane h asked fits =
      let (c, held, noted, shown) = (create-IsStored req w s sane h).stored in
      let written : annotation anno_ttl_seconds c ≡ format_int (pos n) =
        ground (arith, noted.ttl) in
      let exact = (effective_duration_exact_iff n m.defaults.ttl (omega arith)).1 fits in
      shown ∙ rw (written, exact, whole_seconds_exact n) refl
