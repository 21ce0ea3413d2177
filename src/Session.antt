-- ===== src/Session.antt =====
-- lifecycle-manager/internal/session: the derived state of a session (state.go), its external view
-- and the annotation vocabulary (session.go). The identifiers are in the child `Id`.
pub mod Pattern
pub mod Id
pub mod Laws
use hermes_cluster.Base.{String, Bool, not, ◌&&◌, Option, ◌==◌, if◌then◌else◌}
use hermes_cluster.Base.Int.{ℤ}
use hermes_cluster.Clock.{Time}

pub data State : Type 0 where
  pending ready waking suspended suspending terminating : State

pub record Facts : Type 0 where
  pub terminating : Bool
  pub has_sandbox : Bool
  pub operating_mode : String
  pub ready : Bool
  pub suspended : Bool

-- the value of a Ready or operatingMode field that suspends
abbrev pub mode_suspended : String
mode_suspended = "Suspended"

abbrev pub mode_running : String
mode_running = "Running"

-- Derive: the `switch`, its cases in order
unfoldable pub derive : Facts → State
derive f =
    if f.terminating
    then State.terminating
    else if not f.has_sandbox
    then State.pending
    else if f.operating_mode == mode_suspended && f.suspended
    then State.suspended
    else if f.operating_mode == mode_suspended
    then State.suspending
    else if f.ready
    then State.ready
    else State.waking

abbrev pub managed_label : String
managed_label = "hermes.nabi.dev/managed"

abbrev pub anno_ttl_seconds : String
anno_ttl_seconds = "hermes.nabi.dev/ttl-seconds"

abbrev pub anno_idle_timeout_seconds : String
anno_idle_timeout_seconds = "hermes.nabi.dev/idle-timeout-seconds"

abbrev pub anno_connector : String
anno_connector = "hermes.nabi.dev/connector"

abbrev pub anno_display_name : String
anno_display_name = "hermes.nabi.dev/display-name"

abbrev pub anno_wake_at : String
anno_wake_at = "hermes.nabi.dev/wake-at"

pub record ConnectorView : Type 0 where
  pub provisioned : Bool
  pub connected : Bool
  pub revoked : Bool
  pub buffered_count : ℤ
  pub last_inbound_at : Option ℤ
  pub turn_in_flight : Bool

pub record Session : Type 0 where
  pub id : String
  pub state : State
  pub operating_mode : String
  pub created_at : Time
  pub ttl_seconds : ℤ
  pub idle_timeout_seconds : ℤ
  pub display_name : String
  pub connector : Option ConnectorView
