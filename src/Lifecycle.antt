-- ===== src/Lifecycle.antt =====
-- lifecycle-manager/internal/lifecycle/manager.go: the manager's records, the world that its
-- methods act on, and the durations of a session. The methods are in the children: `Read` (Get,
-- List, Sandbox, Instances, assemble), `Create`, and `Control` (Wake, Restart, Decommission).
-- Logging is left out.
pub mod Durations
pub mod Read
pub mod Create
pub mod Control
pub mod Frame
use hermes_cluster.Base.{ℕ, suc, String, Bool, Option, none, some, List, ◌==◌, if◌then◌else◌}
use hermes_cluster.Base.Int.{ℤ}
use hermes_cluster.Base.Dict.{Dict, lookup}
use hermes_cluster.Base.Exec.{Exec, ok}
use hermes_cluster.Clock.{Clock, Duration, Time, zero_time}
use hermes_cluster.K8s
use hermes_cluster.K8s.{Claim}
use hermes_cluster.Connector
use hermes_cluster.Connector.{Instance}
use hermes_cluster.Agent

pub record Defaults : Type 0 where
  pub warm_pool : String
  pub ttl : Duration
  pub idle_timeout : Duration
  pub platform : String
  pub bot_id : String
  pub wake_base_url : String

pub record RouteKey : Type 0 where
  pub platform : String
  pub chat_id : String

pub record CreateRequest : Type 0 where
  pub id : String
  pub warm_pool : String
  pub ttl_seconds : Option ℤ
  pub idle_timeout_seconds : Option ℤ
  pub display_name : String
  pub route_keys : List RouteKey
  pub connector : Bool

-- The fields of `Manager` that are set once. `agent` is `none` for a nil client.
pub record Manager (KS CS AS : Type 0) : Type 0 where
  pub k8s : K8s.Client KS
  pub connector : Connector.Client CS
  pub agent : Option (Agent.Client AS)
  pub defaults : Defaults

-- What the methods read and write: the states behind the three clients, the clock, the random
-- bytes (five for each reading), and the manager's cache of the connector's instances.
pub record World (KS CS AS : Type 0) : Type 0 where
  pub k8s_state : KS
  pub connector_state : CS
  pub agent_state : AS
  pub clock : Clock
  pub random_at : ℕ → List ℕ
  pub random_reads : ℕ
  pub instances : Option (Dict Instance)
  pub instances_at : Time

-- claim.Annotations[key]: a missing key reads as ""
abbrev pub annotation : String → Claim → String
annotation key claim = elim (lookup key claim.annotations) [ none ↦ "" | some v ↦ v ]

-- the sandbox that a claim is bound to, or the claim's own name
abbrev pub sandbox_name_of : Claim → String
sandbox_name_of claim = if claim.sandbox_name == "" then claim.name else claim.sandbox_name

module _ {KS CS AS : Type 0} where
  -- AgentClient
  abbrev pub agent_client : Manager KS CS AS → Agent.Client AS
  agent_client m = elim m.agent [ none ↦ Agent.disabled_client | some c ↦ c ]

  abbrev pub on_k8s : {A : Type 0} → Exec KS A → Exec (World KS CS AS) A
  on_k8s f w = let (r, s) = f w.k8s_state in (r, record w { k8s_state = s })

  abbrev pub on_connector : {A : Type 0} → Exec CS A → Exec (World KS CS AS) A
  on_connector f w = let (r, s) = f w.connector_state in (r, record w { connector_state = s })

  abbrev pub on_agent : {A : Type 0} → Exec AS A → Exec (World KS CS AS) A
  on_agent f w = let (r, s) = f w.agent_state in (r, record w { agent_state = s })

  -- time.Now()
  abbrev pub now : Exec (World KS CS AS) Time
  now w = (
    ok (w.clock.now_at w.clock.reads),
    record w { clock = record { now_at = w.clock.now_at; reads = suc w.clock.reads } },
  )

  -- rand.Read
  abbrev pub random : Exec (World KS CS AS) (List ℕ)
  random w = (ok (w.random_at w.random_reads), record w { random_reads = suc w.random_reads })

  -- invalidateInstances
  unfoldable pub invalidate_instances : Exec (World KS CS AS) Unit
  invalidate_instances w = (ok tt, record w { instances = none; instances_at = zero_time })
