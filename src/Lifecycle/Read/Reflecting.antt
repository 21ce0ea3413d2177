-- ===== src/Lifecycle/Read/Reflecting.antt =====
-- What a session that is read shows of its claim and of its sandbox (lifecycle/manager.go).
use hermes_cluster.Base.{◌↔◌, is_some, ℕ, String, ◌≡◌, ◌≢◌, true, false, Option, none, some, ◌⊎◌}
use hermes_cluster.Base.Int.{pos, negsuc}
use hermes_cluster.Base.Decimal.{parse_int}
use hermes_cluster.Clock.{Duration, seconds, whole_seconds}
use hermes_cluster.Session.{
  Session, State, anno_connector, anno_display_name, anno_ttl_seconds, anno_idle_timeout_seconds,
}
use hermes_cluster.K8s.{Claim, Sandbox}
use hermes_cluster.K8s.Contract.{Contract}
use hermes_cluster.Lifecycle.{Manager, annotation}

-- the table of docs/architecture.md for a session whose sandbox was read
abbrev pub AppearsBound : Sandbox → State → Type 0
AppearsBound d State.terminating = ⊥
AppearsBound d State.pending = ⊥
AppearsBound d State.suspended = (d.operating_mode ≡ "Suspended") × (d.suspended ≡ true)
AppearsBound d State.suspending = (d.operating_mode ≡ "Suspended") × (d.suspended ≡ false)
AppearsBound d State.ready = (d.operating_mode ≢ "Suspended") × (d.ready ≡ true)
AppearsBound d State.waking = (d.operating_mode ≢ "Suspended") × (d.ready ≡ false)

-- the table for a claim and the sandbox that was read, if one was
abbrev pub Appears : Claim → Option Sandbox → State → Type 0
Appears c none s =
    ((c.terminating ≡ true) × (s ≡ State.terminating))
    ⊎ ((c.terminating ≡ false) × (s ≡ State.pending))
Appears c (some d) s =
    ((c.terminating ≡ true) × (s ≡ State.terminating))
    ⊎ ((c.terminating ≡ false) × AppearsBound d s)

-- the operating mode that a session shows
abbrev pub ShowsMode : Option Sandbox → String → Type 0
ShowsMode none mode = mode ≡ ""
ShowsMode (some d) mode =
    ((d.operating_mode ≡ "") × (mode ≡ "Running"))
    ⊎ ((d.operating_mode ≢ "") × (mode ≡ d.operating_mode))

-- A duration of an annotation: a number of seconds that is not negative, in the int64 product by the
-- second, or else the default.
abbrev pub IsDuration : String → Duration → Duration → Type 0
IsDuration text default d =
    ((n : ℕ) × (parse_int text ≡ some (pos n)) × (d ≡ seconds (pos n)))
    ⊎ (((parse_int text ≡ none) ⊎ ((k : ℕ) × (parse_int text ≡ some (negsuc k)))) × (d ≡ default))

module _ {KS CS AS : Type 0} (m : Manager KS CS AS) where
  -- What a session shows of its claim and of its sandbox.
  pub record Reflects (c : Claim) (b : Option Sandbox) (s : Session) : Type 0 where
    pub id : s.id ≡ c.name
    pub state : Appears c b s.state
    pub operating_mode : ShowsMode b s.operating_mode
    pub created_at : s.created_at ≡ c.created_at
    pub ttl_seconds :
        (d : Duration) × IsDuration (annotation anno_ttl_seconds c) m.defaults.ttl d
        × (s.ttl_seconds ≡ whole_seconds d)
    pub idle_timeout_seconds :
        (d : Duration) × IsDuration
          (annotation anno_idle_timeout_seconds c)
          m.defaults.idle_timeout
          d
        × (s.idle_timeout_seconds ≡ whole_seconds d)
    pub display_name : s.display_name ≡ annotation anno_display_name c
    pub connector :
        (is_some s.connector ≡ true)
        ↔ ((annotation anno_connector c ≡ "true") × (m.connector.enabled ≡ true))
