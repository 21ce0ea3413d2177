-- ===== src/HttpApi/Serve.antt =====
-- The handlers and the routing table of internal/httpapi (server.go, sessions.go).
use hermes_cluster.Base.{ℕ, suc, String, Bool, Option, none, some, List, [], ◌∷◌, if◌then◌else◌}
use hermes_cluster.Base.Int.{ℤ}
use hermes_cluster.Base.Text.{length}
use hermes_cluster.Base.Dict.{Dict, lookup, insert}
use hermes_cluster.Base.Exec.{Exec, Result, ok, err, pure, attempt, get_state, ◌>>=◌}
use hermes_cluster.Clock.{Time, to_unix}
use hermes_cluster.Session.{State, Session}
use hermes_cluster.Lifecycle.{World, CreateRequest, on_k8s}
use hermes_cluster.Lifecycle.Read.{get, list}
use hermes_cluster.Lifecycle.Create.{create}
use hermes_cluster.Lifecycle.Control.{wake, restart, decommission}
use hermes_cluster.Reconcile.{Store}
use hermes_cluster.Sweeper.{Sweeping, on_world}
use hermes_cluster.HttpApi.{
  CreateBody, Endpoint, Request, Body, Response, Server, respond, authorized, create_request,
  create_response, get_response, delete_response, control_response, list_response, ready_response,
}

-- string(sess.State)
abbrev pub state_text : State → String
state_text State.pending = "Pending"
state_text State.ready = "Ready"
state_text State.waking = "Waking"
state_text State.suspended = "Suspended"
state_text State.suspending = "Suspending"
state_text State.terminating = "Terminating"

-- byState[key]++
abbrev pub increment : String → Dict ℕ → Dict ℕ
increment key counts = insert key (suc (elim (lookup key counts) [ none ↦ 0 | some n ↦ n ])) counts

-- the loop over the sessions, onto the counts of those before
unfoldable pub by_state : Dict ℕ → List Session → Dict ℕ
by_state counts [] = counts
by_state counts (s ∷ sessions) = by_state (increment (state_text s.state) counts) sessions

module _ {KS CS AS : Type 0} (server : Server KS CS AS) where
  -- Connector.Reachable, which is asked only of an enabled client
  unfoldable pub probe : Exec (World KS CS AS) (Option Bool)
  probe w =
      if server.manager.connector.enabled
      then (let (up, s) = server.manager.connector.reachable w.connector_state in
          (ok (some up), record w { connector_state = s }))
      else (ok none, w)

  -- ThrottledUntil, for a client that has it
  unfoldable pub throttle : Exec (World KS CS AS) (Option Time)
  throttle w = elim server.manager.connector.throttled_until [
    | none ↦ (ok none, w)
    | some ask ↦
        let (until, s) = ask w.connector_state in (ok until, record w { connector_state = s })
  ]

  abbrev pub unix_of : Option Time → Option ℤ
  unix_of none = none
  unix_of (some t) = some (to_unix t)

  abbrev pub latest_report : Store → Store
  latest_report store = if server.reconciles then store else none

  -- the rest of handleStatus once the sessions are listed
  unfoldable pub status_of : Result (List Session) → Exec (Sweeping KS CS AS) Response
  unfolding probe throttle by_state
  status_of (err e) = pure (respond 500 (Body.failure_of e))
  status_of (ok sessions) = do
    up ← on_world probe
    until ← on_world throttle
    s ← get_state
    pure (
        respond 200 (
          Body.report (length sessions) (by_state [] sessions)
            (record {
              enabled = server.manager.connector.enabled;
              reachable = up;
              throttled_until = unix_of until;
            })
            (latest_report s.report)))

  unfoldable pub handle_status : Exec (Sweeping KS CS AS) Response
  unfolding status_of
  handle_status = do sessions ← attempt (on_world (list server.manager)); status_of sessions

  unfoldable pub handle_readyz : Exec (Sweeping KS CS AS) Response
  unfolding ready_response
  handle_readyz = do
    r ← attempt (on_world (on_k8s server.manager.k8s.ping))
    pure (ready_response r)

  -- handleCreateSession once the body is read and its route keys are checked
  unfoldable pub create_from : Option CreateRequest → Exec (Sweeping KS CS AS) Response
  unfolding create_response
  create_from none = pure (respond 400 (Body.failure "connector.routeKeys[].chatId is required"))
  create_from (some req) = do
    r ← attempt (on_world (create server.manager req))
    pure (create_response r)

  unfoldable pub handle_create : Option CreateBody → Exec (Sweeping KS CS AS) Response
  unfolding create_from create_request
  handle_create none = pure (respond 400 (Body.failure "invalid JSON body"))
  handle_create (some body) = create_from (create_request body)

  unfoldable pub handle_list : Exec (Sweeping KS CS AS) Response
  unfolding list_response
  handle_list = do r ← attempt (on_world (list server.manager)); pure (list_response r)

  unfoldable pub handle_get : String → Exec (Sweeping KS CS AS) Response
  unfolding get_response
  handle_get id = do r ← attempt (on_world (get server.manager id)); pure (get_response r)

  unfoldable pub handle_delete : String → Exec (Sweeping KS CS AS) Response
  unfolding delete_response
  handle_delete id = do
    r ← attempt (on_world (decommission server.manager id))
    pure (delete_response r)

  unfoldable pub handle_restart : String → Exec (Sweeping KS CS AS) Response
  unfolding control_response
  handle_restart id = do
    r ← attempt (on_world (restart server.manager id))
    pure (control_response r)

  unfoldable pub handle_wake : String → Exec (Sweeping KS CS AS) Response
  unfolding control_response
  handle_wake id = do r ← attempt (on_world (wake server.manager id)); pure (control_response r)

  -- auth
  unfoldable pub auth :
      Exec (Sweeping KS CS AS) Response → String → Exec (Sweeping KS CS AS) Response
  unfolding authorized
  auth next header =
      if authorized server.api_token header
      then next
      else pure (respond 401 (Body.failure "missing or invalid bearer token"))

  -- Handler: only the endpoints under /v1 are guarded
  unfoldable pub serve : Request → Exec (Sweeping KS CS AS) Response
  unfolding auth handle_status handle_readyz handle_create handle_list handle_get handle_delete
      handle_restart handle_wake
  serve r = elim r.endpoint [
    | Endpoint.healthz ↦ pure (respond 200 (Body.plain "ok"))
    | Endpoint.readyz ↦ handle_readyz
    | Endpoint.status ↦ handle_status
    | Endpoint.wake_session id ↦ handle_wake id
    | Endpoint.create_session body ↦ auth (handle_create body) r.authorization
    | Endpoint.list_sessions ↦ auth handle_list r.authorization
    | Endpoint.get_session id ↦ auth (handle_get id) r.authorization
    | Endpoint.delete_session id ↦ auth (handle_delete id) r.authorization
    | Endpoint.restart_session id ↦ auth (handle_restart id) r.authorization
  ]
