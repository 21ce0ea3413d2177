-- ===== src/Tests/Creating.antt =====
-- Runs of the theorems on Create and Get.
use hermes_cluster.Base.{String, ◌≡◌, refl, true, some, ◌⊎◌, inl, inr, [], ◌∷◌, arith}
use hermes_cluster.Base.Int.{pos, wrap64, saturate64, ◌*ℤ◌, ◌-ℤ◌}
use hermes_cluster.Base.Dict.{lookup, insert}
use hermes_cluster.Base.Errors.{
  Err, Sentinel, errors_is, sentinel, throttled, connector_disabled, invalid_id,
}
use hermes_cluster.Base.Exec.{ok, err, raise}
use hermes_cluster.Session.{State, Session, derive}
use hermes_cluster.Session.Id.{validate_id}
use hermes_cluster.Session.Pattern.{run, matches}
use hermes_cluster.K8s.Fake.{
  Fake, add_session, create_claim, get_claim, get_sandbox, delete_claim, copy,
}
use hermes_cluster.K8s.Fake.Reads.{view}
use hermes_cluster.K8s.Fake.Sound.{fake_client-Contract}
use hermes_cluster.Connector
use hermes_cluster.Lifecycle.{CreateRequest, World, invalidate_instances}
use hermes_cluster.Lifecycle.Durations.{effective_duration, effective_ttl, effective_idle_timeout}
use hermes_cluster.Lifecycle.Read.{
  empty_view, view_of, by_id, sandbox, store_instances, fetch_instances, cached_or_fetch, instances,
  session_connector, assemble, get,
}
use hermes_cluster.Lifecycle.Create.{
  annotations_of, choose_id, bind_routes, provision_and_bind, settle, connect, create_as, create,
  spec_of,
}
use hermes_cluster.Lifecycle.Create.Laws.{create_disabled, create-rolls_back}
use hermes_cluster.Lifecycle.Create.Stored.{IsStored, create-IsStored, create-ttl}
use hermes_cluster.Clock.{seconds, whole_seconds, sub}
use hermes_cluster.Base.Decimal.{
  format_int, parse_int, digit_text, digits_text, parse_digits, parse_uint,
}
use hermes_cluster.Tests.{
  at, cluster, cluster-Sane, accepting, idle_instance, manager_with, world_at, request,
}

abbrev start : World Fake Unit Unit
start = world_at 0 cluster

abbrev pub created_session : Session
created_session = record {
  id = "s-new";
  state = State.ready;
  operating_mode = "Running";
  created_at = at 0;
  ttl_seconds = pos 600;
  idle_timeout_seconds = pos 900;
  display_name = "new";
  connector = some empty_view;
}

pub created : (create (manager_with accepting) request start).0 ≡ ok created_session
unfolding create choose_id validate_id matches run create_as connect settle provision_and_bind
    bind_routes annotations_of get create_claim add_session lookup insert get_claim assemble sandbox
    session_connector copy instances cached_or_fetch fetch_instances store_instances by_id
    invalidate_instances derive get_sandbox whole_seconds effective_ttl effective_idle_timeout
    effective_duration format_int parse_int digit_text digits_text parse_digits parse_uint seconds
    wrap64 sub saturate64 ◌*ℤ◌ ◌-ℤ◌
created = refl

create-IsStored_example :
    IsStored
      (manager_with accepting)
      fake_client-Contract
      request
      "s-new"
      created_session
      (view cluster)
      (view (create (manager_with accepting) request start).1.k8s_state)
create-IsStored_example =
    create-IsStored (manager_with accepting) fake_client-Contract request start created_session
      cluster-Sane created

create-ttl_example : created_session.ttl_seconds ≡ pos 600
create-ttl_example =
    create-ttl (manager_with accepting) fake_client-Contract request start created_session 600
      cluster-Sane created refl (omega arith)

-- a connector that provisions, and binds no chat
abbrev unbinding : Connector.Client Unit
unbinding = record accepting { set_route = λ route. raise (sentinel throttled) }

abbrev chatting : CreateRequest
chatting = record request { route_keys = record { platform = ""; chat_id = "7" } ∷ [] }

-- the cluster once the claim of the request is in it
abbrev claimed : Fake
claimed = (create_claim (spec_of (manager_with unbinding).defaults "s-new" chatting) cluster).1

create-rolls_back_example :
    (f : Err) × ((create (manager_with unbinding) chatting start).0 ≡ err f)
    × ((kind : Sentinel) → errors_is f kind ≡ errors_is (sentinel throttled) kind)
    × ((j : String)
        → (view (create (manager_with unbinding) chatting start).1.k8s_state).claim j
          ≡ (view cluster).claim j)
unfolding choose_id validate_id matches run annotations_of create_claim add_session lookup insert
    delete_claim
create-rolls_back_example =
    create-rolls_back (manager_with unbinding) fake_client-Contract chatting start "s-new" start
      claimed (sentinel throttled) cluster-Sane refl refl refl refl
      (inr (record { tenant = "t"; gateway_id = "s-new"; route_keys = [] }, refl, inl refl)) refl

create_disabled_example :
    (e : Err) × ((create (manager_with Connector.disabled_client) chatting start).0 ≡ err e)
    × ((e ≡ sentinel connector_disabled) ⊎ (errors_is e invalid_id ≡ true))
    × ((create (manager_with Connector.disabled_client) chatting start).1.k8s_state ≡ cluster)
    × ((create (manager_with Connector.disabled_client) chatting start).1.connector_state ≡ tt)
unfolding Connector.disabled_client
create_disabled_example =
    create_disabled (manager_with Connector.disabled_client) chatting start refl refl

abbrev read_session : Session
read_session = record {
  id = "s-dc-7";
  state = State.ready;
  operating_mode = "Running";
  created_at = at 0;
  ttl_seconds = pos 600;
  idle_timeout_seconds = pos 900;
  display_name = "";
  connector = some (view_of idle_instance);
}
