-- ===== src/Sweeper.antt =====
-- lifecycle-manager/internal/sweeper: the runner, its configuration and the quiet clock
-- (runner.go). The suspend gate is in the child `Idle`, the exposure of a session in `Exposure`, and
-- the parts of a sweep in `Timers`, `Suspend`, `Quiet` and `Sweep`. Logging is left out.
pub mod Idle
pub mod Quiet
pub mod Exposure
pub mod Timers
pub mod Suspend
pub mod Sweep
pub mod Run
use hermes_cluster.Base.{String, Bool, Option, List}
use hermes_cluster.Base.Int.{ℤ}
use hermes_cluster.Base.Dict.{Dict}
use hermes_cluster.Base.Exec.{Exec}
use hermes_cluster.Clock.{Duration, Time}
use hermes_cluster.Lifecycle.{Manager, World}
use hermes_cluster.Reconcile.{Store}

pub record ExposureConfig : Type 0 where
  pub port : ℤ
  pub domain : String
  pub ingress_class : String
  pub tls_secret : String
  pub deny_service : String

-- The fields of `Runner` that are set once. `reconciles` is whether its store is there.
pub record Runner (KS CS AS : Type 0) : Type 0 where
  pub manager : Manager KS CS AS
  pub interval : Duration
  pub reconciles : Bool
  pub idle_horizon : Duration
  pub wake_boot_margin : Duration
  pub exposure : Option ExposureConfig

-- What a sweep reads and writes: the manager's world, the quiet clock (`none` for the nil map) and
-- the reconcile store.
pub record Sweeping (KS CS AS : Type 0) : Type 0 where
  pub world : World KS CS AS
  pub quiet_since : Option (Dict Time)
  pub report : Store

module _ {KS CS AS : Type 0} where
  abbrev pub on_world : {A : Type 0} → Exec (World KS CS AS) A → Exec (Sweeping KS CS AS) A
  on_world f s = let (r, w) = f s.world in (r, record s { world = w })
