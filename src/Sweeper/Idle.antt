-- ===== src/Sweeper/Idle.antt =====
-- lifecycle-manager/internal/sweeper/idle.go: the suspend gate and its cron half.
pub mod Laws
pub mod Cron
use hermes_cluster.Base.{Bool, true, false, not, ◌||◌, Option, none, some, if◌then◌else◌}
use hermes_cluster.Base.Int.{ℤ, pos, ltb_ℤ, leb_ℤ, eqb_ℤ, ◌-ℤ◌, wrap64}
use hermes_cluster.Clock.{Duration, Time, sub, add, unix, is_zero}
use hermes_cluster.Session.{State, Facts, derive}
use hermes_cluster.K8s.{Sandbox}
use hermes_cluster.Connector.{Instance}
use hermes_cluster.Agent.{Report, busy}

pub record IdleInput : Type 0 where
  pub sandbox : Option Sandbox
  pub instance_seen : Option Instance
  pub idle_timeout : Duration
  pub now : Time
  pub agent_enabled : Bool
  pub agent : Option Report
  pub quiet_since : Time

-- s == session.StateReady
abbrev pub is_ready : State → Bool
is_ready State.ready = true
is_ready _ = false

-- the facts of a bound sandbox, as the sweeper states them
abbrev pub bound_facts : Sandbox → Facts
bound_facts b = record {
  terminating = false;
  has_sandbox = true;
  operating_mode = b.operating_mode;
  ready = b.ready;
  suspended = b.suspended;
}

-- the sandbox is not suspended and derives to Ready
unfoldable pub is_running : Sandbox → Bool
unfolding derive
is_running b = if b.suspended then false else is_ready (derive (bound_facts b))

-- t.IsZero() || now.Sub(t) < timeout
unfoldable pub is_recent : Time → Time → Duration → Bool
is_recent now t timeout = is_zero t || ltb_ℤ (sub now t) timeout

-- the newer of the two activity timestamps
abbrev pub newer : ℤ → ℤ → ℤ
newer inbound outbound = if ltb_ℤ inbound outbound then outbound else inbound

-- guard 7, once both timestamps are known
unfoldable pub relay_silent : IdleInput → ℤ → ℤ → Bool
relay_silent i inbound outbound =
    not (ltb_ℤ (sub i.now (unix (newer inbound outbound))) i.idle_timeout)

-- guard 6
unfoldable pub both_silent : IdleInput → Option ℤ → Option ℤ → Bool
unfolding relay_silent
both_silent i (some inbound) (some outbound) = relay_silent i inbound outbound
both_silent i (some inbound) none = false
both_silent i none _ = false

-- guards 9 to 11
unfoldable pub agent_silent : IdleInput → Option Report → Bool
unfolding is_recent busy
agent_silent i none = false
agent_silent i (some r) =
    if busy r then false else if is_recent i.now i.quiet_since i.idle_timeout then false else true

-- guards 5 to 11, for a known instance
unfoldable pub decide_instance : IdleInput → Instance → Bool
unfolding both_silent agent_silent
decide_instance i x =
    if x.revoked
    then false
    else if x.turn_in_flight
    then false
    else if not (both_silent i x.last_inbound_at x.last_outbound_at)
    then false
    else if not (eqb_ℤ x.buffered_count (pos 0))
    then false
    else if i.agent_enabled
    then agent_silent i i.agent
    else true

-- guards 2 to 11, for a bound sandbox
unfoldable pub decide_sandbox : IdleInput → Sandbox → Bool
unfolding is_running is_recent decide_instance
decide_sandbox i b =
    if not (is_running b)
    then false
    else if is_recent i.now b.ready_changed i.idle_timeout
    then false
    else elim i.instance_seen [ none ↦ false | some x ↦ decide_instance i x ]

-- DecideIdle
unfoldable pub decide_idle : IdleInput → Bool
unfolding decide_sandbox
decide_idle i =
    if leb_ℤ i.idle_timeout (pos 0)
    then false
    else elim i.sandbox [ none ↦ false | some b ↦ decide_sandbox i b ]

-- DecideCron (Go negates an int64, which wraps): `none` is (false, nil), and `some wake_at` is (true, wake_at)
unfoldable pub decide_cron : Option Time → Time → Duration → Duration → Option (Option Time)
decide_cron none now horizon boot_margin = some none
decide_cron (some fire) now horizon boot_margin =
    if leb_ℤ (sub fire now) horizon
    then none
    else some (some (add fire (wrap64 (pos 0 -ℤ boot_margin))))
