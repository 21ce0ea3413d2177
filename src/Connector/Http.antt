-- ===== src/Connector/Http.antt =====
-- lifecycle-manager/internal/connector/http.go: the client of the connector's admin plane. Sending a
-- request, JSON and the escaping of URLs are Go's library and the network: they are the fields of
-- `Web`. A payload is the value that is encoded. A request that cannot be formed counts as one that
-- cannot be sent.
pub mod Laws
use hermes_cluster.Base.{
  ℕ, suc, String, Bool, true, false, not, ◌||◌, Option, none, some, List, ◌==◌, eqb, ltb,
  if◌then◌else◌,
}
use hermes_cluster.Base.Int.{ℤ, pos}
use hermes_cluster.Base.Text.{◌<>◌}
use hermes_cluster.Base.Errors.{Err, other, api_error, sentinel, wrap, throttled, no_instance}
use hermes_cluster.Base.Exec.{Exec, Result, ok, err, pure, raise, attempt, ◌>>=◌, ◌>>◌}
use hermes_cluster.Clock.{Clock, Time, Duration, add, before}
use hermes_cluster.Connector.{
  Instance, ProvisionRequest, ProvisionResult, InstancePatch, Route, Client,
}

pub data Payload : Type 0 where
  provisioning : ProvisionRequest → Payload
  patching : InstancePatch → Payload
  routing : Route → Payload

-- a request; `bearer` is none for the probe of /metrics
pub record Outgoing : Type 0 where
  pub method : String
  pub path : String
  pub bearer : Option String
  pub payload : Option Payload

pub record Reply : Type 0 where
  pub code : ℕ
  pub text : String

-- Sending, the decoding of the three kinds of answers (`none` for an error), the text of an error
-- answer, and the two escapes.
pub record Web (S : Type 0) : Type 0 where
  pub send : Outgoing → Exec S Reply
  pub decode_provision : String → Option ProvisionResult
  pub decode_instances : String → Option (List Instance)
  pub decode_routes : String → Option (List Route)
  pub read_error_body : String → String
  pub path_escape : String → String
  pub query_escape : String → String

-- HTTPClient: the fields that are set once, and those that change
pub record HttpClient (S : Type 0) : Type 0 where
  pub web : Web S
  pub admin_token : String
  pub provision_token : String

pub record HttpState (S : Type 0) : Type 0 where
  pub network : S
  pub clock : Clock
  pub throttled_until : Time

-- 65 * time.Second
abbrev pub throttle_window : Duration
throttle_window = pos 65000000000

module _ {S : Type 0} where
  -- time.Now()
  abbrev pub now : Exec (HttpState S) Time
  now s = (
    ok (s.clock.now_at s.clock.reads),
    record s { clock = record { now_at = s.clock.now_at; reads = suc s.clock.reads } },
  )

  -- ThrottledUntil
  unfoldable pub throttled_deadline : HttpState S → Option Time × HttpState S
  throttled_deadline s =
      let t = s.clock.now_at s.clock.reads in
      let s' = (now s).1 in
      if before t s.throttled_until then (some s.throttled_until, s') else (none, s')

  -- the answer 429 sets the window
  unfoldable pub back_off : {A : Type 0} → Exec (HttpState S) A
  back_off s =
      let t = s.clock.now_at s.clock.reads in
      (err (sentinel throttled), record (now s).1 { throttled_until = add t throttle_window })

module _ {S : Type 0} (c : HttpClient S) where
  abbrev pub on_network : {A : Type 0} → Exec S A → Exec (HttpState S) A
  on_network f s = let (r, n) = f s.network in (r, record s { network = n })

  -- what `do` makes of the status of an answer
  unfoldable pub judge : Outgoing → Reply → Exec (HttpState S) String
  unfolding back_off
  judge r reply =
      if eqb reply.code 429
      then back_off
      else if eqb reply.code 404
      then raise (wrap (r.method <> " " <> r.path) (sentinel no_instance))
      else if ltb reply.code 200 || ltb 299 reply.code
      then raise (api_error reply.code (c.web.read_error_body reply.text))
      else pure reply.text

  -- what `do` makes of the attempt to send
  unfoldable pub settle : Outgoing → Result Reply → Exec (HttpState S) String
  unfolding judge
  settle r (err e) = raise (wrap "connector" e)
  settle r (ok reply) = judge r reply

  -- do, up to the decoding of the answer
  unfoldable pub request : Outgoing → Exec (HttpState S) String
  unfolding settle
  request r s =
      let t = s.clock.now_at s.clock.reads in
      let s' = (now s).1 in
      if before t s.throttled_until
      then (err (sentinel throttled), s')
      else (do x ← attempt (on_network (c.web.send r)); settle r x) s'

  -- the decoding of an answer
  unfoldable pub decoded : {A : Type 0} → Outgoing → Option A → Exec (HttpState S) A
  decoded r none =
      raise (other ("connector: decoding " <> r.method <> " " <> r.path <> " response"))
  decoded r (some a) = pure a

  abbrev pub admin : String → String → Option Payload → Outgoing
  admin method path payload = record {
    method = method;
    path = path;
    bearer = some c.admin_token;
    payload = payload;
  }

  abbrev pub instance_path : String → String
  instance_path id = "/admin/v1/instances/" <> c.web.path_escape id

  abbrev pub routes_path : String → String
  routes_path id =
      if id == ""
      then "/admin/v1/routes"
      else "/admin/v1/routes?gatewayId=" <> c.web.query_escape id

  abbrev pub provisioning_request : ProvisionRequest → Outgoing
  provisioning_request req = record {
    method = "POST";
    path = "/relay/provision";
    bearer = some c.provision_token;
    payload = some (Payload.provisioning req);
  }

  unfoldable pub provision : ProvisionRequest → Exec (HttpState S) ProvisionResult
  unfolding request decoded
  provision req =
      if c.provision_token == ""
      then raise (other "connector: no provision token configured (HLM_CONNECTOR_PROVISION_TOKEN)")
      else (do
        text ← request (provisioning_request req)
        decoded (provisioning_request req) (c.web.decode_provision text))

  unfoldable pub list_instances : Exec (HttpState S) (List Instance)
  unfolding request decoded
  list_instances = do
    text ← request (admin "GET" "/admin/v1/instances" none)
    decoded (admin "GET" "/admin/v1/instances" none) (c.web.decode_instances text)

  -- a call whose answer is not read
  unfoldable pub command : Outgoing → Exec (HttpState S) Unit
  unfolding request
  command r = do request r; pure tt

  unfoldable pub list_routes : String → Exec (HttpState S) (List Route)
  unfolding request decoded
  list_routes id = do
    text ← request (admin "GET" (routes_path id) none)
    decoded (admin "GET" (routes_path id) none) (c.web.decode_routes text)

  -- Reachable, which goes round `do`
  unfoldable pub reachable : HttpState S → Bool × HttpState S
  reachable s =
      let (x, n) =
        c.web.send (record { method = "GET"; path = "/metrics"; bearer = none; payload = none })
          s.network in
      (elim x [ err e ↦ false | ok reply ↦ eqb reply.code 200 ], record s { network = n })

  abbrev pub http_client : Client (HttpState S)
  http_client = record {
    enabled = true;
    reachable = reachable;
    provision = provision;
    list_instances = list_instances;
    patch_instance =
        λ id patch. command (admin "PATCH" (instance_path id) (some (Payload.patching patch)));
    revoke = λ id. command (admin "POST" (instance_path id <> "/revoke") none);
    delete_instance = λ id. command (admin "DELETE" (instance_path id) none);
    set_route = λ route. command (admin "POST" "/admin/v1/routes" (some (Payload.routing route)));
    list_routes = list_routes;
    delete_route = λ platform chat_id. command (
        admin "DELETE"
          ("/admin/v1/routes/" <> c.web.path_escape platform <> "/" <> c.web.path_escape chat_id)
          none);
    throttled_until = some throttled_deadline;
  }
