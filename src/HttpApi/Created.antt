-- ===== src/HttpApi/Created.antt =====
-- What a POST of a session that is answered 201 has created (httpapi/sessions.go).
use hermes_cluster.Base.{
  String, ◌≡◌, ◌⊎◌, inl, inr, refl, ap, ◌∙◌, true, false, Option, none, some, List, [], ◌∷◌, ◌==◌,
  eq_iff, arith, Bool-cases, Option-cases,
}
use hermes_cluster.Base.Exec.{ok, Result-cases}
use hermes_cluster.Session.{Session}
use hermes_cluster.K8s.Contract.{View, Contract}
use hermes_cluster.Lifecycle.{CreateRequest, RouteKey}
use hermes_cluster.Lifecycle.Create.{create}
use hermes_cluster.Lifecycle.Create.Taken.{IsTaken}
use hermes_cluster.Lifecycle.Create.Stored.{
  IsStored, create-IsStored, create-IsTaken, create-given_id,
}
use hermes_cluster.Sweeper.{Sweeping}
use hermes_cluster.HttpApi.{
  CreateBody, Endpoint, Body, Response, Server, authorized, checked_keys, create_request,
  create_response,
}
use hermes_cluster.HttpApi.Serve.{serve, auth, handle_create, create_from}

-- The connector part of a body: its presence asks for the connector, and it brings the route keys.
abbrev pub HasKeys : Option (List RouteKey) → CreateRequest → Type 0
HasKeys none req = (req.connector ≡ false) × (req.route_keys ≡ [])
HasKeys (some keys) req = (req.connector ≡ true) × (req.route_keys ≡ keys)

-- A request of the manager that asks for what the body of a POST says.
pub record Asks (b : CreateBody) (req : CreateRequest) : Type 0 where
  pub id : req.id ≡ b.id
  pub warm_pool : req.warm_pool ≡ b.warm_pool
  pub ttl_seconds : req.ttl_seconds ≡ b.ttl_seconds
  pub idle_timeout_seconds : req.idle_timeout_seconds ≡ b.idle_timeout_seconds
  pub display_name : req.display_name ≡ b.display_name
  pub keys : HasKeys b.connector req

checked_keys-same : (keys ks : List RouteKey) → checked_keys keys ≡ some ks → ks ≡ keys
unfolding checked_keys
checked_keys-same [] ks h = ground arith
checked_keys-same (key ∷ keys) ks h = elim (Option-cases (checked_keys keys)) [
  | inl keyless ↦ absurd (ground arith)
  | inr (rest, kept) ↦ ground (arith, checked_keys-same keys rest kept)
]

create_request-Asks :
    (b : CreateBody) (req : CreateRequest) → create_request b ≡ some req → Asks b req
unfolding create_request
create_request-Asks b req h = elim (Option-cases b.connector) [
  | inl off ↦ record {
    id = ground arith;
    warm_pool = ground arith;
    ttl_seconds = ground arith;
    idle_timeout_seconds = ground arith;
    display_name = ground arith;
    keys = rw off (ground arith, ground arith);
  }
  | inr (keys, on) ↦ elim (Option-cases (checked_keys keys)) [
    | inl keyless ↦ absurd (ground arith)
    | inr (ks, checked) ↦ record {
      id = ground arith;
      warm_pool = ground arith;
      ttl_seconds = ground arith;
      idle_timeout_seconds = ground arith;
      display_name = ground arith;
      keys = rw on (ground arith, ground (arith, checked_keys-same keys ks checked));
    }
  ]
]

given_id : (own id : String) → ((own == "") ≡ false → id ≡ own) → (own ≡ "") ⊎ (id ≡ own)
given_id own id h = ground (arith, eq_iff own "")

module _ {KS CS AS : Type 0} (server : Server KS CS AS) {view : KS → View} {Sane : KS → Type 0}
    (k : Contract server.manager.k8s view Sane) where
  -- A POST of a session that is answered 201 holds a session whose id no claim had before, the
  -- body's where the body gives one. The cluster took a claim of that name, of the body's warm pool
  -- or, where it gives none, the default one. The stored claim has the body's numbers and display
  -- name, and the connector flag that the body's connector part, which is there or not, and its route
  -- keys ask for; every other claim is as it was.
  pub serve-created :
      (header : String) (body : Option CreateBody) (s : Sweeping KS CS AS) (answer : Response)
      → Sane s.world.k8s_state
      → (serve server
          (record { authorization = header; endpoint = Endpoint.create_session body })
          s).0
        ≡ ok answer
      → answer.code ≡ 201
      → (b : CreateBody) × (req : CreateRequest) × (x : Session) × (body ≡ some b)
        × Asks b req
        × (answer.body ≡ Body.one x)
        × ((b.id ≡ "") ⊎ (x.id ≡ b.id))
        × IsTaken server.manager req x.id s.world.k8s_state
            (serve server
              (record { authorization = header; endpoint = Endpoint.create_session body })
              s).1.world.k8s_state
        × IsStored server.manager k req x.id x (view s.world.k8s_state) (
            view
              (serve server
                (record { authorization = header; endpoint = Endpoint.create_session body })
                s).1.world.k8s_state)
  unfolding serve auth handle_create create_from
  serve-created header none s answer sane h code =
      elim (Bool-cases (authorized server.api_token header)) [
        | inr denied ↦ absurd (ground arith)
        | inl allowed ↦ absurd (ground arith)
      ]
  serve-created header (some b) s answer sane h code =
      elim (Bool-cases (authorized server.api_token header)) [
        | inr denied ↦ absurd (ground arith)
        | inl allowed ↦ elim (Option-cases (create_request b)) [
          | inl keyless ↦ absurd (ground arith)
          | inr (req, asked) ↦ elim (Result-cases (create server.manager req s.world).0) [
            | inr (e, failed) ↦ absurd (unfold create_response in ground arith)
            | inl (x, created) ↦
                let asks = create_request-Asks b req asked in
                let own : (b.id ≡ "") ⊎ (x.id ≡ b.id) = given_id b.id x.id λ given.
                  (create-given_id server.manager k req s.world x sane created
                    (ap (λ i. i == "") asks.id ∙ given)).0
                  ∙ asks.id in
                (
                  b,
                  req,
                  x,
                  refl,
                  asks,
                  (unfold create_response in ground arith),
                  own,
                  rw (allowed, asked) (create-IsTaken server.manager k req s.world x sane created),
                  rw (allowed, asked) (create-IsStored server.manager k req s.world x sane created),
                )
          ]
        ]
      ]
