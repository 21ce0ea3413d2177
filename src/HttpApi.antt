-- ===== src/HttpApi.antt =====
-- lifecycle-manager/internal/httpapi: the HTTP surface (server.go) and the session handlers
-- (sessions.go). The router, the reading of JSON and the text of an error are Go's library: a
-- request comes with its endpoint and its decoded body, and a body holds the error itself.
pub mod Serve
pub mod Laws
pub mod Created
use hermes_cluster.Base.{
  ℕ, suc, String, Bool, true, false, not, ◌&&◌, Option, none, some, List, [], ◌∷◌, ◌==◌, eqb,
  if◌then◌else◌,
}
use hermes_cluster.Base.Int.{ℤ}
use hermes_cluster.Base.Text.{same_text, codes, length}
use hermes_cluster.Base.Dict.{Dict, lookup, insert}
use hermes_cluster.Base.Errors.{
  Err, Sentinel, errors_is, already_exists, connector_disabled, throttled, invalid_id, not_found,
}
use hermes_cluster.Base.Exec.{Exec, Result, ok, err, pure, attempt, ◌>>=◌}
use hermes_cluster.Clock.{Time, to_unix}
use hermes_cluster.Session.{State, Session}
use hermes_cluster.Reconcile
use hermes_cluster.Lifecycle.{Manager, World, RouteKey, CreateRequest, on_k8s, on_connector}
use hermes_cluster.Lifecycle.Read.{get, list}
use hermes_cluster.Lifecycle.Create.{create}
use hermes_cluster.Lifecycle.Control.{wake, restart, decommission}
use hermes_cluster.Sweeper.{Sweeping, on_world}

-- createSessionBody; `connector` holds the route keys
pub record CreateBody : Type 0 where
  pub id : String
  pub warm_pool : String
  pub ttl_seconds : Option ℤ
  pub idle_timeout_seconds : Option ℤ
  pub display_name : String
  pub connector : Option (List RouteKey)

-- the routing table; `none` is a body that is not the JSON of a `CreateBody`
pub data Endpoint : Type 0 where
  healthz readyz status : Endpoint
  wake_session : String → Endpoint
  create_session : Option CreateBody → Endpoint
  list_sessions : Endpoint
  get_session delete_session restart_session : String → Endpoint

pub record Request : Type 0 where
  pub authorization : String
  pub endpoint : Endpoint

-- the connector's part of /status
pub record ConnectorStatus : Type 0 where
  pub enabled : Bool
  pub reachable : Option Bool
  pub throttled_until : Option ℤ

pub data Body : Type 0 where
  plain : String → Body
  one : Session → Body
  many : List Session → Body
  deleted : Bool → Body
  done : Body
  report : ℕ → Dict ℕ → ConnectorStatus → Option Reconcile.Report → Body
  failure : String → Body
  failure_of : Err → Body

pub record Response : Type 0 where
  pub code : ℕ
  pub body : Body

pub record Server (KS CS AS : Type 0) : Type 0 where
  pub manager : Manager KS CS AS
  pub api_token : String
  pub reconciles : Bool

abbrev pub respond : ℕ → Body → Response
respond code body = record { code = code; body = body }

abbrev pub unknown_session : Response
unknown_session = respond 404 (Body.failure "unknown session")

-- strings.CutPrefix
abbrev pub cut_prefix : List ℕ → List ℕ → Option (List ℕ)
cut_prefix [] s = some s
cut_prefix (p ∷ ps) [] = none
cut_prefix (p ∷ ps) (c ∷ s) = let rest = cut_prefix ps s in if eqb p c then rest else none

abbrev bears : String → Option (List ℕ) → Bool
bears token none = false
bears token (some got) = same_text got (codes token)

-- the test of `auth`
unfoldable pub authorized : String → String → Bool
authorized token header =
    if token == "" then true else bears token (cut_prefix (codes "Bearer ") (codes header))

-- the loop over the route keys: `none` if one has no chat id
unfoldable pub checked_keys : List RouteKey → Option (List RouteKey)
checked_keys [] = some []
checked_keys (k ∷ keys) =
    let rest = checked_keys keys in
    if k.chat_id == "" then none else elim rest [ none ↦ none | some ks ↦ some (k ∷ ks) ]

abbrev pub request_with : CreateBody → Bool → List RouteKey → CreateRequest
request_with body connector keys = record {
  id = body.id;
  warm_pool = body.warm_pool;
  ttl_seconds = body.ttl_seconds;
  idle_timeout_seconds = body.idle_timeout_seconds;
  display_name = body.display_name;
  route_keys = keys;
  connector = connector;
}

abbrev with_keys : CreateBody → Option (List RouteKey) → Option CreateRequest
with_keys body none = none
with_keys body (some keys) = some (request_with body true keys)

unfoldable pub create_request : CreateBody → Option CreateRequest
unfolding checked_keys
create_request body = elim body.connector [
  | none ↦ some (request_with body false [])
  | some keys ↦ with_keys body (checked_keys keys)
]

-- the switch of handleCreateSession
unfoldable pub create_response : Result Session → Response
create_response (ok s) = respond 201 (Body.one s)
create_response (err e) =
    if errors_is e already_exists
    then respond 409 (Body.failure_of e)
    else if errors_is e connector_disabled
    then respond 422 (Body.failure_of e)
    else if errors_is e throttled
    then respond 503 (Body.failure_of e)
    else if errors_is e invalid_id
    then respond 400 (Body.failure_of e)
    else respond 502 (Body.failure_of e)

-- the switch of handleGetSession
unfoldable pub get_response : Result Session → Response
get_response (ok s) = respond 200 (Body.one s)
get_response (err e) =
    if errors_is e not_found then unknown_session else respond 500 (Body.failure_of e)

-- the switch of handleDeleteSession
unfoldable pub delete_response : Result Bool → Response
delete_response (ok b) = respond 200 (Body.deleted b)
delete_response (err e) =
    if errors_is e not_found
    then unknown_session
    else if errors_is e throttled
    then respond 503 (Body.failure_of e)
    else respond 502 (Body.failure_of e)

-- the switch of handleRestartSession and of handleWake
unfoldable pub control_response : Result (Unit {0}) → Response
control_response (ok _) = respond 200 Body.done
control_response (err e) =
    if errors_is e not_found then unknown_session else respond 500 (Body.failure_of e)

unfoldable pub list_response : Result (List Session) → Response
list_response (ok ss) = respond 200 (Body.many ss)
list_response (err e) = respond 500 (Body.failure_of e)

unfoldable pub ready_response : Result (Unit {0}) → Response
ready_response (ok _) = respond 200 Body.done
ready_response (err e) = respond 503 (Body.failure_of e)
