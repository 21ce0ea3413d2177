-- ===== src/Agent.antt =====
-- lifecycle-manager/internal/agent/client.go: what a session pod reports, the interface of the
-- poller, and the poller that is wired in when polling is off.
pub mod Http
use hermes_cluster.Base.{String, Bool, false, ◌||◌, Option}
use hermes_cluster.Base.Int.{ℤ, pos, ltb_ℤ}
use hermes_cluster.Base.Errors.{sentinel, agent_disabled}
use hermes_cluster.Base.Exec.{Exec, raise}
use hermes_cluster.Clock.{Time}

pub record Report : Type 0 where
  pub active_agents : ℤ
  pub active_sessions : ℤ

-- Busy
unfoldable pub busy : Report → Bool
busy r = ltb_ℤ (pos 0) r.active_agents || ltb_ℤ (pos 0) r.active_sessions

pub record Client (S : Type 0) : Type 0 where
  pub enabled : Bool
  pub status : String → Exec S Report
  pub cron_configured : Bool
  pub next_cron_fire : String → Exec S (Option Time)

-- Disabled
unfoldable pub disabled_client : {S : Type 0} → Client S
disabled_client = record {
  enabled = false;
  status = λ target. raise (sentinel agent_disabled);
  cron_configured = false;
  next_cron_fire = λ target. raise (sentinel agent_disabled);
}
