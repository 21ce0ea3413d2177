-- ===== src/Tests/Serving.antt =====
-- Runs of the theorems on the HTTP surface and on the clients of the connector and of the agent.
use hermes_cluster.Base.{
  ℕ, suc, String, ◌≡◌, ◌↔◌, ◌++◌, ◌⊎◌, refl, Bool, true, false, none, some, List, [], ◌∷◌, arith,
  if◌then◌else◌,
}
use hermes_cluster.Base.Int.{pos, ◌+ℤ◌}
use hermes_cluster.Base.Text.{codes}
use hermes_cluster.Base.Dict.{lookup, insert, erase}
use hermes_cluster.Base.Errors.{sentinel, throttled}
use hermes_cluster.Base.Exec.{ok, err}
use hermes_cluster.Clock.Rfc3339
use hermes_cluster.K8s.Fake.{Fake, add_session, get_claim, delete_claim}
use hermes_cluster.K8s.Fake.Reads.{view}
use hermes_cluster.K8s.Fake.Sound.{fake_client-Contract}
use hermes_cluster.Lifecycle.{invalidate_instances, CreateRequest}
use hermes_cluster.Lifecycle.Control.{purged, purge, remove_claim, decommission}
use hermes_cluster.Lifecycle.Create.Taken.{IsTaken}
use hermes_cluster.Lifecycle.Create.Stored.{IsStored}
use hermes_cluster.Session.{Session}
use hermes_cluster.Sweeper.{Sweeping}
use hermes_cluster.Connector.{ProvisionRequest, InstancePatch, Route}
use hermes_cluster.Connector.Http as ConnectorHttp
use hermes_cluster.Connector.Http.{HttpState, request, http_client}
use hermes_cluster.Connector.Http.Laws.{
  IsHeld, after_calls, request-backs_off, http_client-throttled,
}
use hermes_cluster.Agent.Http as AgentHttp
use hermes_cluster.HttpApi.{
  CreateBody, Endpoint, Request, Body, Server, respond, authorized, create_request, create_response,
  delete_response, checked_keys,
}
use hermes_cluster.HttpApi.Serve.{serve, auth, handle_create, create_from, handle_delete}
use hermes_cluster.HttpApi.Laws.{authorized_iff, serve-guarded, serve-deleted}
use hermes_cluster.HttpApi.Created.{Asks, serve-created}
use hermes_cluster.Tests.{at, cluster, cluster-Sane, accepting, manager_with, world_at, clock_at}
use hermes_cluster.Tests.Creating.{created, created_session}

abbrev server : Server Fake Unit Unit
server = record { manager = manager_with accepting; api_token = "secret"; reconciles = true }

abbrev serving : Sweeping Fake Unit Unit
serving = record { world = world_at 0 cluster; quiet_since = none; report = none }

abbrev delete_request : Request
delete_request = record {
  authorization = "Bearer secret";
  endpoint = Endpoint.delete_session "s-dc-7";
}

abbrev token : String
token = "secret"

authorized_iff_example :
    (authorized "secret" "Bearer secret" ≡ true)
    ↔ ((token ≡ "") ⊎ (codes "Bearer secret" ≡ codes "Bearer " ++ codes "secret"))
authorized_iff_example = authorized_iff "secret" "Bearer secret"

serve-guarded_example :
    serve server
      (record { authorization = "Bearer guess"; endpoint = Endpoint.delete_session "s-dc-7" })
      serving
    ≡ (ok (respond 401 (Body.failure "missing or invalid bearer token")), serving)
unfolding authorized
serve-guarded_example =
    serve-guarded server "Bearer guess" (Endpoint.delete_session "s-dc-7") serving refl refl

serve-deleted_example :
    (view (serve server delete_request serving).1.world.k8s_state).claim "s-dc-7" ≡ none
unfolding serve auth authorized handle_delete delete_response decommission purge purged remove_claim
    invalidate_instances get_claim delete_claim add_session insert lookup erase
serve-deleted_example =
    serve-deleted server fake_client-Contract "Bearer secret" "s-dc-7" "s-dc-7" serving
      (respond 200 (Body.deleted true)) cluster-Sane refl refl

abbrev body_new : CreateBody
body_new = record {
  id = "s-new";
  warm_pool = "";
  ttl_seconds = some (pos 600);
  idle_timeout_seconds = none;
  display_name = "new";
  connector = some [];
}

abbrev create_new : Request
create_new = record {
  authorization = "Bearer secret";
  endpoint = Endpoint.create_session (some body_new);
}

create_new-answer :
    (serve server create_new serving).0 ≡ ok (respond 201 (Body.one created_session))
unfolding serve auth authorized handle_create create_request checked_keys create_from
    create_response
create_new-answer = rw created refl

serve-created_example :
    (b : CreateBody) × (req : CreateRequest) × (x : Session) × (some body_new ≡ some b)
    × Asks b req
    × (Body.one created_session ≡ Body.one x)
    × ((b.id ≡ "") ⊎ (x.id ≡ b.id))
    × IsTaken server.manager req x.id cluster (serve server create_new serving).1.world.k8s_state
    × IsStored server.manager fake_client-Contract req x.id x
        (view cluster)
        (view (serve server create_new serving).1.world.k8s_state)
serve-created_example =
    serve-created server fake_client-Contract "Bearer secret" (some body_new) serving
      (respond 201 (Body.one created_session)) cluster-Sane create_new-answer refl

abbrev provision_new : ProvisionRequest
provision_new = record {
  gateway_id = "s";
  platform = "discord";
  bot_id = "b";
  route_keys = [];
  instance_id = "";
  wake_url = "";
  display_name = "";
}

abbrev patch_none : InstancePatch
patch_none = record { wake_url = none; display_name = none }

abbrev route_new : Route
route_new = record { platform = "discord"; chat_id = "7"; gateway_id = "s" }

-- a network that counts its requests and answers all with one status
abbrev counting : ℕ → ConnectorHttp.Web ℕ
counting code = record {
  send = λ r n. (ok (record { code = code; text = "x" }), suc n);
  decode_provision = λ text. none;
  decode_instances = λ text. some [];
  decode_routes = λ text. some [];
  read_error_body = λ text. text;
  path_escape = λ text. text;
  query_escape = λ text. text;
}

abbrev client : ℕ → ConnectorHttp.HttpClient ℕ
client code = record { web = counting code; admin_token = "a"; provision_token = "p" }

abbrev idle_network : HttpState ℕ
idle_network = record { network = 0; clock = clock_at 9; throttled_until = at 0 }

abbrev held_network : HttpState ℕ
held_network = record { network = 0; clock = clock_at 9; throttled_until = at 10 }

abbrev probe_request : ConnectorHttp.Outgoing
probe_request = record { method = "GET"; path = "/p"; bearer = some "a"; payload = none }

-- the clock of the run stands still, so that the window stays open through two calls
request-backs_off_example :
    ((request (client 429) probe_request idle_network).0 ≡ err (sentinel throttled))
    × IsHeld (request (client 429) probe_request) (
        after_calls
          (client 429)
          (probe_request ∷ probe_request ∷ [])
          (request (client 429) probe_request idle_network).1)
    × ((after_calls
          (client 429)
          (probe_request ∷ probe_request ∷ [])
          (request (client 429) probe_request idle_network).1).network
        ≡ 1)
unfolding ◌+ℤ◌
request-backs_off_example =
    request-backs_off (client 429) probe_request (probe_request ∷ probe_request ∷ []) probe_request
      idle_network (record { code = 429; text = "x" }) (omega arith) refl refl
      (λ i fits. omega arith)

http_client-throttled_example :
    let c = http_client (client 200) in
    IsHeld (c.provision provision_new) held_network
    × IsHeld c.list_instances held_network
    × IsHeld (c.patch_instance "s" patch_none) held_network
    × IsHeld (c.revoke "s") held_network
    × IsHeld (c.delete_instance "s") held_network
    × IsHeld (c.set_route route_new) held_network
    × IsHeld (c.list_routes "s") held_network
    × IsHeld (c.delete_route "discord" "s") held_network
http_client-throttled_example =
    http_client-throttled (client 200) "s" "discord" patch_none provision_new route_new held_network
      (omega arith) refl

abbrev jobs : List AgentHttp.CronJob
jobs =
    record { enabled = none; next_run_at = "1997-05-23T16:00:07" }
    ∷ record { enabled = some false; next_run_at = "?" }
    ∷ []

-- a pod that wants a login first: the state is whether there was one
abbrev pod : AgentHttp.Web Bool
pod = record {
  get = λ url logged. (ok (record { code = if logged then 200 else 401; text = "jobs" }), logged);
  post_login = λ url user pass logged. (ok (record { code = 200; text = "" }), true);
  decode_report = λ text. none;
  decode_jobs = λ text. some jobs;
}

abbrev poller : AgentHttp.HttpClient Bool
poller = record { web = pod; port = pos 9119; username = "u"; password = "p" }
