-- ===== src/Sweeper/Idle/Laws.antt =====
-- What the suspend gate lets through (sweeper/idle.go).
use hermes_cluster.Base.{
  ◌≡◌, ◌≢◌, ◌↔◌, ◌⊎◌, inl, inr, refl, true, false, some, arith, eq_iff, Option-cases, Bool-cases,
}
use hermes_cluster.Base.Int.{ℤ, pos, negsuc, ltb_ℤ, eqb_ℤ, ◌+ℤ◌, ◌≤ℤ◌, ◌<ℤ◌, IsInt64}
use hermes_cluster.Clock.{Duration, Time, sub, unix, is_zero, zero_time, sub-lt_iff}
use hermes_cluster.Session.{derive, mode_suspended}
use hermes_cluster.K8s.{Sandbox}
use hermes_cluster.Connector.{Instance}
use hermes_cluster.Agent.{Report, busy}
use hermes_cluster.Sweeper.Idle.{
  IdleInput, is_running, is_recent, newer, relay_silent, both_silent, agent_silent, decide_instance,
  decide_sandbox, decide_idle,
}

-- A known moment that lies at least the timeout back.
abbrev pub IsPast : Time → Time → Duration → Type 0
IsPast now t timeout = (t ≢ zero_time) × (t +ℤ timeout ≤ℤ now)

pub is_zero_iff : (t : Time) → (is_zero t ≡ true) ↔ (t ≡ zero_time)
is_zero_iff (pos n) = ground arith
is_zero_iff (negsuc n) = ground arith

pub not_before_iff :
    (now t : Time) (timeout : Duration)
    → IsInt64 timeout
    → pos 0 <ℤ timeout
    → (ltb_ℤ (sub now t) timeout ≡ false) ↔ (t +ℤ timeout ≤ℤ now)
not_before_iff now t timeout h p = ground (arith, sub-lt_iff now t timeout h p)

eqb_zero_iff : (n : ℤ) → (eqb_ℤ n (pos 0) ≡ true) ↔ (n ≡ pos 0)
eqb_zero_iff (pos n) = ground arith
eqb_zero_iff (negsuc n) = ground arith

is_recent_iff :
    (now t : Time) (timeout : Duration)
    → IsInt64 timeout
    → pos 0 <ℤ timeout
    → (is_recent now t timeout ≡ false) ↔ IsPast now t timeout
unfolding is_recent
is_recent_iff now t timeout h p = ground (arith, is_zero_iff t, not_before_iff now t timeout h p)

pub is_running_iff :
    (b : Sandbox)
    → (is_running b ≡ true)
      ↔ ((b.suspended ≡ false) × (b.operating_mode ≢ mode_suspended) × (b.ready ≡ true))
unfolding is_running derive
is_running_iff b = ground (arith, eq_iff b.operating_mode mode_suspended)

-- The later of two numbers.
abbrev pub IsNewer : ℤ → ℤ → ℤ → Type 0
IsNewer t inbound outbound = (inbound ≤ℤ t) × (outbound ≤ℤ t) × ((t ≡ inbound) ⊎ (t ≡ outbound))

IsNewer-iff : (t a b : ℤ) → IsNewer t a b ↔ (t ≡ newer a b)
IsNewer-iff (pos t) (pos a) (pos b) = ground arith
IsNewer-iff (pos t) (pos a) (negsuc b) = ground arith
IsNewer-iff (pos t) (negsuc a) (pos b) = ground arith
IsNewer-iff (pos t) (negsuc a) (negsuc b) = ground arith
IsNewer-iff (negsuc t) (pos a) (pos b) = ground arith
IsNewer-iff (negsuc t) (pos a) (negsuc b) = ground arith
IsNewer-iff (negsuc t) (negsuc a) (pos b) = ground arith
IsNewer-iff (negsuc t) (negsuc a) (negsuc b) = ground arith

-- Both activity timestamps are known, and the newer one lies at least the timeout back.
abbrev pub IsRelaySilent : IdleInput → Instance → Type 0
IsRelaySilent i x =
    (inbound : ℤ) × (outbound : ℤ) × (t : ℤ) × (x.last_inbound_at ≡ some inbound)
    × (x.last_outbound_at ≡ some outbound)
    × IsNewer t inbound outbound
    × (unix t +ℤ i.idle_timeout ≤ℤ i.now)

-- The agent was reached, reports no work, and has been seen quiet for the timeout.
abbrev pub IsAgentSilent : IdleInput → Type 0
IsAgentSilent i =
    (r : Report) × (i.agent ≡ some r)
    × (r.active_agents ≤ℤ pos 0)
    × (r.active_sessions ≤ℤ pos 0)
    × IsPast i.now i.quiet_since i.idle_timeout

abbrev pub IsConnectorIdle : IdleInput → Instance → Type 0
IsConnectorIdle i x =
    (x.revoked ≡ false)
    × (x.turn_in_flight ≡ false)
    × (x.buffered_count ≡ pos 0)
    × IsRelaySilent i x

abbrev pub IsSandboxIdle : IdleInput → Sandbox → Type 0
IsSandboxIdle i b =
    (b.suspended ≡ false)
    × (b.operating_mode ≢ mode_suspended)
    × (b.ready ≡ true)
    × IsPast i.now b.ready_changed i.idle_timeout

-- The eleven guards of the gate, stated on the observed facts.
pub record IsIdle (i : IdleInput) : Type 0 where
  pub enabled : pos 0 <ℤ i.idle_timeout
  pub sandbox : (b : Sandbox) × (i.sandbox ≡ some b) × IsSandboxIdle i b
  pub relay : (x : Instance) × (i.instance_seen ≡ some x) × IsConnectorIdle i x
  pub agent : i.agent_enabled ≡ true → IsAgentSilent i

module _ (i : IdleInput) (fits : IsInt64 i.idle_timeout) (enabled : pos 0 <ℤ i.idle_timeout) where
  both_silent_iff :
      (x : Instance)
      → (both_silent i x.last_inbound_at x.last_outbound_at ≡ true) ↔ IsRelaySilent i x
  unfolding both_silent relay_silent
  both_silent_iff x = (
    λ h. elim (Option-cases x.last_inbound_at) [
      | inl unknown ↦ absurd (ground arith)
      | inr (a, known) ↦ elim (Option-cases x.last_outbound_at) [
        | inl unknown ↦ absurd (ground arith)
        | inr (b, known_b) ↦ (
          a,
          b,
          newer a b,
          known,
          known_b,
          (IsNewer-iff (newer a b) a b).1 refl,
          ground (arith, not_before_iff i.now (unix (newer a b)) i.idle_timeout fits enabled),
        )
      ]
    ],
    λ (a, b, t, known, known_b, newest, past).
        let same : t ≡ newer a b = (IsNewer-iff t a b).0 newest in
        ground (arith, not_before_iff i.now (unix (newer a b)) i.idle_timeout fits enabled),
  )

  agent_silent_iff : (agent_silent i i.agent ≡ true) ↔ IsAgentSilent i
  unfolding agent_silent busy
  agent_silent_iff = (
    λ h. elim (Option-cases i.agent) [
      | inl unknown ↦ absurd (ground arith)
      | inr (r, known) ↦ (
        r,
        known,
        ground arith,
        ground arith,
        (is_recent_iff i.now i.quiet_since i.idle_timeout fits enabled).0 (ground arith),
      )
    ],
    λ (r, known, agents, sessions, past).
        let old = (is_recent_iff i.now i.quiet_since i.idle_timeout fits enabled).1 past in
        ground arith,
  )

  decide_instance_iff :
      (x : Instance)
      → (decide_instance i x ≡ true)
        ↔ (IsConnectorIdle i x × (i.agent_enabled ≡ true → IsAgentSilent i))
  unfolding decide_instance
  decide_instance_iff x = (
    λ h.
        let silent : both_silent i x.last_inbound_at x.last_outbound_at ≡ true = ground arith in
        (
          (
            ground arith,
            ground arith,
            ground (arith, eqb_zero_iff x.buffered_count),
            (both_silent_iff x).0 silent,
          ),
          λ on. agent_silent_iff.0 (ground arith),
        ),
    λ ((live, free, empty, silent), agent).
        let relay = (both_silent_iff x).1 silent in
        let zero = (eqb_zero_iff x.buffered_count).1 empty in
        elim (Bool-cases i.agent_enabled) [
          | inl on ↦ let quiet = agent_silent_iff.1 (agent on) in ground arith
          | inr off ↦ ground arith
        ],
  )

  decide_sandbox_iff :
      (b : Sandbox)
      → (decide_sandbox i b ≡ true) ↔ (
          IsSandboxIdle i b
          × ((x : Instance) × (i.instance_seen ≡ some x) × IsConnectorIdle i x)
          × (i.agent_enabled ≡ true → IsAgentSilent i))
  unfolding decide_sandbox
  decide_sandbox_iff b = (
    λ h. elim (Option-cases i.instance_seen) [
      | inl unknown ↦ absurd (ground arith)
      | inr (x, known) ↦
          let (mode, ready, up) = (is_running_iff b).0 (ground arith) in
          let old =
            (is_recent_iff i.now b.ready_changed i.idle_timeout fits enabled).0 (ground arith) in
          let (idle, agent) = (decide_instance_iff x).0 (ground arith) in
          ((mode, ready, up, old), (x, known, idle), agent)
    ],
    λ ((mode, ready, up, old), (x, known, idle), agent).
        let running = (is_running_iff b).1 (mode, ready, up) in
        let settled = (is_recent_iff i.now b.ready_changed i.idle_timeout fits enabled).1 old in
        let decided = (decide_instance_iff x).1 (idle, agent) in ground arith,
  )

-- The gate says yes exactly when every guard holds. The timeout is positive. The sandbox is bound,
-- in a running mode, ready, and was ready at least the timeout ago. The connector knows the
-- instance, has it unrevoked, without a turn and without buffered work, and both activity
-- timestamps are known, the newer one at least the timeout ago. If polling is on, the agent was
-- reached, reports no work, and has been seen quiet for at least the timeout. Each `ago` is an
-- exact difference of times: the saturation of `Sub` never shows.
pub decide_idle_iff : (i : IdleInput) → IsInt64 i.idle_timeout → (decide_idle i ≡ true) ↔ IsIdle i
unfolding decide_idle
decide_idle_iff i fits = (
  λ h. elim (Option-cases i.sandbox) [
    | inl unbound ↦ absurd (ground arith)
    | inr (b, bound) ↦
        let enabled : pos 0 <ℤ i.idle_timeout = ground arith in
        let (idle, relay, agent) = (decide_sandbox_iff i fits enabled b).0 (ground arith) in
        record { enabled = enabled; sandbox = (b, bound, idle); relay = relay; agent = agent }
  ],
  λ h.
      let (b, bound, idle) = h.sandbox in
      let decided = (decide_sandbox_iff i fits h.enabled b).1 (idle, h.relay, h.agent) in
      let enabled = h.enabled in ground arith,
)
