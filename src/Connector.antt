-- ===== src/Connector.antt =====
-- lifecycle-manager/internal/connector/client.go: the relay connector's records, the interface of
-- its client, and the client that is wired in when the integration is off.
pub mod Http
pub mod ApiError
use hermes_cluster.Base.{String, Bool, false, Option, none, List}
use hermes_cluster.Base.Int.{ℤ}
use hermes_cluster.Base.Errors.{sentinel, disabled}
use hermes_cluster.Base.Exec.{Exec, raise}
use hermes_cluster.Clock.{Time}

pub record Instance : Type 0 where
  pub gateway_id : String
  pub tenant : String
  pub instance_id : Option String
  pub wake_url : Option String
  pub display_name : Option String
  pub revoked : Bool
  pub connected : Bool
  pub buffered_count : ℤ
  pub last_inbound_at : Option ℤ
  pub last_outbound_at : Option ℤ
  pub turn_in_flight : Bool

pub record ProvisionRequest : Type 0 where
  pub gateway_id : String
  pub platform : String
  pub bot_id : String
  pub route_keys : List String
  pub instance_id : String
  pub wake_url : String
  pub display_name : String

pub record ProvisionResult : Type 0 where
  pub tenant : String
  pub gateway_id : String
  pub route_keys : List String

pub record InstancePatch : Type 0 where
  pub wake_url : Option String
  pub display_name : Option String

pub record Route : Type 0 where
  pub platform : String
  pub chat_id : String
  pub gateway_id : String

pub record Client (S : Type 0) : Type 0 where
  pub enabled : Bool
  pub reachable : S → Bool × S
  pub provision : ProvisionRequest → Exec S ProvisionResult
  pub list_instances : Exec S (List Instance)
  pub patch_instance : String → InstancePatch → Exec S Unit
  pub revoke : String → Exec S Unit
  pub delete_instance : String → Exec S Unit
  pub set_route : Route → Exec S Unit
  pub list_routes : String → Exec S (List Route)
  pub delete_route : String → String → Exec S Unit
  -- ThrottleReporter, for the implementations that have it (httpapi/server.go)
  pub throttled_until : Option (S → Option Time × S)

-- Disabled
unfoldable pub disabled_client : {S : Type 0} → Client S
disabled_client = record {
  enabled = false;
  reachable = λ s. (false, s);
  provision = λ req. raise (sentinel disabled);
  list_instances = raise (sentinel disabled);
  patch_instance = λ id patch. raise (sentinel disabled);
  revoke = λ id. raise (sentinel disabled);
  delete_instance = λ id. raise (sentinel disabled);
  set_route = λ route. raise (sentinel disabled);
  list_routes = λ id. raise (sentinel disabled);
  delete_route = λ platform chat_id. raise (sentinel disabled);
  throttled_until = none;
}
