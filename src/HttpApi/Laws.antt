-- ===== src/HttpApi/Laws.antt =====
-- What the answers of the HTTP surface tell (httpapi/server.go, httpapi/sessions.go).
use hermes_cluster.Base.{
  ℕ, String, ◌≡◌, ◌↔◌, ◌⊎◌, inl, inr, refl, sym, ap, ◌∙◌, Bool, true, false, none, some, List, [],
  ◌∷◌, ◌++◌, ◌==◌, eq_iff, if◌then◌else◌, arith, Bool-cases, Option-cases,
}
use hermes_cluster.Base.Text.{codes, same_text}
use hermes_cluster.Base.Errors.{
  Err, errors_is, errors_is_unique, already_exists, connector_disabled, throttled, invalid_id,
}
use hermes_cluster.Base.Exec.{ok, err, Result-cases}
use hermes_cluster.K8s.Contract.{View, Contract}
use hermes_cluster.Lifecycle.Control.{decommission}
use hermes_cluster.Lifecycle.Control.Laws.{decommission-gone}
use hermes_cluster.Sweeper.{Sweeping}
use hermes_cluster.HttpApi.{
  Endpoint, Body, Response, Server, respond, cut_prefix, authorized, create_response,
  delete_response,
}
use hermes_cluster.HttpApi.Serve.{serve, auth, handle_delete}

same_text_iff : (s t : List ℕ) → (same_text s t ≡ true) ↔ (s ≡ t)
same_text_iff [] [] = ground arith
same_text_iff [] (d ∷ t) = ground arith
same_text_iff (c ∷ s) [] = ground arith
same_text_iff (c ∷ s) (d ∷ t) = ground (arith, same_text_iff s t)

cut_prefix_iff : (p s t : List ℕ) → (cut_prefix p s ≡ some t) ↔ (s ≡ p ++ t)
cut_prefix_iff [] s t = ground arith
cut_prefix_iff (c ∷ p) [] t = ground arith
cut_prefix_iff (c ∷ p) (d ∷ s) t = ground (arith, cut_prefix_iff p s t)

some_injective : {s t : List ℕ} → some s ≡ some t → s ≡ t
some_injective h = ground arith

-- A request is let through exactly when no token is configured, or when its Authorization header is
-- the word Bearer, a blank and the token.
pub authorized_iff :
    (token header : String)
    → (authorized token header ≡ true)
      ↔ ((token ≡ "") ⊎ (codes header ≡ codes "Bearer " ++ codes token))
unfolding authorized
authorized_iff token header =
    let prefix = cut_prefix (codes "Bearer ") (codes header) in
    let whole = cut_prefix_iff (codes "Bearer ") (codes header) (codes token) in
    elim (Bool-cases (token == "")) [
      | inl unset ↦ rw unset (λ h. inl ((eq_iff token "").0 unset), λ h. refl)
      | inr set ↦ elim (Option-cases prefix) [
        | inl other ↦ rw set (
          λ h. absurd (ground arith),
          λ h. elim h [
            | inl empty ↦ absurd (ground (arith, eq_iff token ""))
            | inr bearer ↦ absurd (ground (arith, whole))
          ],
        )
        | inr (got, found) ↦
            let same = same_text_iff got (codes token) in
            let split = cut_prefix_iff (codes "Bearer ") (codes header) got in
            rw (set, found)
              (
                λ h. inr (split.0 found ∙ ap (λ t. codes "Bearer " ++ t) (same.0 h)),
                λ h. elim h [
                  | inl empty ↦ absurd (ground (arith, eq_iff token ""))
                  | inr bearer ↦ same.1 (some_injective (sym found ∙ whole.1 bearer))
                ],
              )
      ]
    ]

-- The status of a failed POST of a session tells the kind of the error: 409 exactly for an id that
-- exists, 422 exactly for the integration being off, 503 exactly for a throttled connector, 400
-- exactly for an invalid id, and 502 exactly for any other error.
pub create_response_iff :
    (e : Err)
    → let code = (create_response (err e)).code in
      ((code ≡ 409) ↔ (errors_is e already_exists ≡ true))
      × ((code ≡ 422) ↔ (errors_is e connector_disabled ≡ true))
      × ((code ≡ 503) ↔ (errors_is e throttled ≡ true))
      × ((code ≡ 400) ↔ (errors_is e invalid_id ≡ true))
      × ((code ≡ 502) ↔ (
          (errors_is e already_exists ≡ false)
          × (errors_is e connector_disabled ≡ false)
          × (errors_is e throttled ≡ false)
          × (errors_is e invalid_id ≡ false)))
unfolding create_response
create_response_iff e = ground (
  arith,
  errors_is_unique e already_exists connector_disabled,
  errors_is_unique e already_exists throttled,
  errors_is_unique e already_exists invalid_id,
  errors_is_unique e connector_disabled throttled,
  errors_is_unique e connector_disabled invalid_id,
  errors_is_unique e throttled invalid_id,
)

-- the endpoints under /v1
abbrev pub guarded : Endpoint → Bool
guarded Endpoint.healthz = false
guarded Endpoint.readyz = false
guarded Endpoint.status = false
guarded (Endpoint.wake_session id) = false
guarded (Endpoint.create_session body) = true
guarded Endpoint.list_sessions = true
guarded (Endpoint.get_session id) = true
guarded (Endpoint.delete_session id) = true
guarded (Endpoint.restart_session id) = true

module _ {KS CS AS : Type 0} (server : Server KS CS AS) where
  -- A request under /v1 without the configured token is answered 401, and nothing is read or changed.
  pub serve-guarded :
      (header : String) (endpoint : Endpoint) (s : Sweeping KS CS AS)
      → guarded endpoint ≡ true
      → authorized server.api_token header ≡ false
      → serve server (record { authorization = header; endpoint = endpoint }) s
        ≡ (ok (respond 401 (Body.failure "missing or invalid bearer token")), s)
  unfolding serve auth
  serve-guarded header Endpoint.healthz s g denied = absurd (ground arith)
  serve-guarded header Endpoint.readyz s g denied = absurd (ground arith)
  serve-guarded header Endpoint.status s g denied = absurd (ground arith)
  serve-guarded header (Endpoint.wake_session id) s g denied = absurd (ground arith)
  serve-guarded header (Endpoint.create_session body) s g denied = rw denied refl
  serve-guarded header Endpoint.list_sessions s g denied = rw denied refl
  serve-guarded header (Endpoint.get_session id) s g denied = rw denied refl
  serve-guarded header (Endpoint.delete_session id) s g denied = rw denied refl
  serve-guarded header (Endpoint.restart_session id) s g denied = rw denied refl

module _ {KS CS AS : Type 0} (server : Server KS CS AS) {view : KS → View} {Sane : KS → Type 0}
    (k : Contract server.manager.k8s view Sane) where
  -- A DELETE of a session that is answered 200 has removed its claim and left every other claim.
  pub serve-deleted :
      (header id j : String) (s : Sweeping KS CS AS) (answer : Response)
      → Sane s.world.k8s_state
      → (serve server
          (record { authorization = header; endpoint = Endpoint.delete_session id })
          s).0
        ≡ ok answer
      → answer.code ≡ 200
      → (view
            (serve server
              (record { authorization = header; endpoint = Endpoint.delete_session id })
              s).1.world.k8s_state).claim
          j
        ≡ (if id == j then none else (view s.world.k8s_state).claim j)
  unfolding serve auth handle_delete
  serve-deleted header id j s answer sane h code =
      elim (Bool-cases (authorized server.api_token header)) [
        | inr denied ↦ absurd (ground arith)
        | inl allowed ↦ elim (Result-cases (decommission server.manager id s.world).0) [
          | inl (b, done) ↦ rw allowed (decommission-gone server.manager k id j s.world b sane done)
          | inr (e, failed) ↦ absurd (unfold delete_response in ground arith)
        ]
      ]
