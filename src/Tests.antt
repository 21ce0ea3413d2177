-- ===== src/Tests.antt =====
-- A small cluster on which the theorems are run: one session "s-dc-7" on the in-memory client, a
-- connector that accepts every call and one that refuses to provision and to delete, and an agent
-- that is quiet.
pub mod Cluster
pub mod Configuring
mod Control
mod Creating
mod Exposing
mod Parsing
mod Running
mod Serving
mod Starting
mod Sweeping
mod Texts
use hermes_cluster.Base.{
  ℕ, ◌+◌, ◌*◌, String, ◌≡◌, Bool, true, false, Option, none, some, List, [], ◌∷◌, ◌==◌, eq_iff,
  arith,
}
use hermes_cluster.Base.Int.{ℤ, pos}
use hermes_cluster.Base.Dict.{Dict, lookup, lookup-insert}
use hermes_cluster.Base.Errors.{Err, sentinel, throttled, no_instance}
use hermes_cluster.Base.Exec.{ok, err, pure, raise}
use hermes_cluster.Clock.{Clock, Time, Duration, zero_time}
use hermes_cluster.Session.{
  mode_running, mode_suspended, anno_connector, anno_wake_at, anno_ttl_seconds,
}
use hermes_cluster.K8s.{Claim, Sandbox}
use hermes_cluster.K8s.Fake.{Fake, add_session, fake_client}
use hermes_cluster.K8s.Fake.Reads.{Sane}
use hermes_cluster.Connector
use hermes_cluster.Connector.{Instance}
use hermes_cluster.Agent
use hermes_cluster.Lifecycle.{Defaults, Manager, World, CreateRequest}

-- the moment so many seconds after a fixed one (October 1, 1996)
abbrev pub at : ℕ → Time
at n = pos ((63000000000 + n) * 1000000000)

-- the same in Unix seconds
abbrev pub unix_at : ℕ → ℤ
unix_at n = pos (864403200 + n)

-- a clock that stands still
abbrev pub clock_at : ℕ → Clock
clock_at n = record { now_at = λ i. at n; reads = 0 }

abbrev pub empty_cluster : Fake
empty_cluster = record {
  claims = [];
  sandboxes = [];
  exposures = [];
  create_sandbox_on_claim = true;
  fault = none;
  clock = clock_at 0;
}

abbrev pub annotations : Dict String
annotations = (anno_connector, "true") ∷ (anno_ttl_seconds, "600") ∷ []

abbrev pub cluster : Fake
cluster = add_session "s-dc-7" (at 0) annotations mode_running true empty_cluster

abbrev pub session_claim : Claim
session_claim = record {
  name = "s-dc-7";
  uid = "";
  created_at = at 0;
  annotations = annotations;
  terminating = false;
  sandbox_name = "s-dc-7";
}

pub empty_cluster-Sane : Sane empty_cluster
unfolding lookup
empty_cluster-Sane = record {
  claim_names = λ n c h. absurd (ground arith);
  sandbox_names = λ n b h. absurd (ground arith);
  outage = λ e h. absurd (ground arith);
}

pub add_session-Sane :
    (name : String) (t : Time) (notes : Dict String) (mode : String) (ready : Bool) (f : Fake)
    → Sane f
    → Sane (add_session name t notes mode ready f)
unfolding add_session
add_session-Sane name t notes mode ready f s = record {
  claim_names = λ n c h. grind (arith, s.claim_names, eq_iff name n, lookup-insert);
  sandbox_names = λ n b h. grind (arith, s.sandbox_names, eq_iff name n, lookup-insert);
  outage = λ e h. s.outage e h;
}

pub cluster-Sane : Sane cluster
cluster-Sane =
    add_session-Sane "s-dc-7" (at 0) annotations mode_running true empty_cluster empty_cluster-Sane

-- the session suspended, with a wake at the second 500 (in words of the test's own time format)
abbrev pub asleep : Fake
asleep =
    add_session "s-dc-7" (at 0) ((anno_wake_at, "at 500") ∷ annotations) mode_suspended false
      empty_cluster

pub asleep-Sane : Sane asleep
asleep-Sane =
    add_session-Sane "s-dc-7" (at 0) ((anno_wake_at, "at 500") ∷ annotations) mode_suspended false
      empty_cluster empty_cluster-Sane

abbrev pub idle_instance : Instance
idle_instance = record {
  gateway_id = "s-dc-7";
  tenant = "t";
  instance_id = none;
  wake_url = none;
  display_name = none;
  revoked = false;
  connected = true;
  buffered_count = pos 0;
  last_inbound_at = some (unix_at 0);
  last_outbound_at = some (unix_at 1);
  turn_in_flight = false;
}

abbrev pub accepting : Connector.Client Unit
accepting = record {
  enabled = true;
  reachable = λ s. (true, s);
  provision = λ req. pure (record { tenant = "t"; gateway_id = req.gateway_id; route_keys = [] });
  list_instances = pure (idle_instance ∷ []);
  patch_instance = λ id patch. pure tt;
  revoke = λ id. pure tt;
  delete_instance = λ id. pure tt;
  set_route = λ route. pure tt;
  list_routes = λ id. pure [];
  delete_route = λ platform chat_id. pure tt;
  throttled_until = none;
}

abbrev pub refusing : Connector.Client Unit
refusing = record accepting {
  provision = λ req. raise (sentinel throttled);
  delete_instance = λ id. raise (sentinel throttled);
}

-- its next cron fire is ten thousand seconds after the fixed moment
abbrev pub quiet_agent : Agent.Client Unit
quiet_agent = record {
  enabled = true;
  status = λ target. pure (record { active_agents = pos 0; active_sessions = pos 0 });
  cron_configured = true;
  next_cron_fire = λ target. pure (some (at 10000));
}

abbrev pub defaults : Defaults
defaults = record {
  warm_pool = "pool";
  ttl = pos 0;
  idle_timeout = pos 900000000000;
  platform = "discord";
  bot_id = "bot";
  wake_base_url = "http://lifecycle";
}

abbrev pub manager_with : Connector.Client Unit → Manager Fake Unit Unit
manager_with connector = record {
  k8s = fake_client;
  connector = connector;
  agent = some quiet_agent;
  defaults = defaults;
}

abbrev pub world_at : ℕ → Fake → World Fake Unit Unit
world_at n f = record {
  k8s_state = f;
  connector_state = tt;
  agent_state = tt;
  clock = clock_at n;
  random_at = λ i. 1 ∷ 2 ∷ 3 ∷ 4 ∷ 5 ∷ [];
  random_reads = 0;
  instances = none;
  instances_at = zero_time;
}

abbrev pub request : CreateRequest
request = record {
  id = "s-new";
  warm_pool = "";
  ttl_seconds = some (pos 600);
  idle_timeout_seconds = none;
  display_name = "new";
  route_keys = [];
  connector = true;
}
