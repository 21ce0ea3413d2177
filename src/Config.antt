-- ===== src/Config.antt =====
-- lifecycle-manager/internal/config/config.go: the settings, read from the environment and checked.
-- The environment and the files are the fields of `Env`. The warning about
-- polling without exposure goes to the log and is left out.
pub mod Reading
pub mod Checks
pub mod Load
pub mod Laws
use hermes_cluster.Base.{
  ℕ, ◌+◌, String, Bool, true, false, not, ◌&&◌, ◌||◌, Option, none, some, List, [], ◌∷◌, map, ◌==◌,
  eqb, leb, if◌then◌else◌,
}
use hermes_cluster.Base.Int.{ℤ, pos, ltb_ℤ}
use hermes_cluster.Base.Text.{codes, between, same_text, ◌<>◌, trim_left, trim_right, trim_space}
use hermes_cluster.Base.Decimal.{parse_int}
use hermes_cluster.Base.Errors.{Err, other}
use hermes_cluster.Base.Exec.{Exec, Result, Done, ok, err, pure, raise, lift, ◌>>=◌, ◌>>◌}
use hermes_cluster.Clock.{Duration, second, seconds}

-- os.LookupEnv, os.ReadFile (`none` for an error), and the product in floating point by which
-- time.ParseDuration reads a decimal fraction of a unit
pub record Env : Type 0 where
  pub lookup_env : String → Option String
  pub read_file : String → Option String
  pub fraction : ℕ → ℕ → ℕ → ℕ

pub record Config : Type 0 where
  pub listen : String
  pub namespace : String
  pub warm_pool : String
  pub sandbox_api_group : String
  pub sandbox_ext_api_group : String
  pub sandbox_api_version : String
  pub sweep_interval : Duration
  pub idle_timeout : Duration
  pub ttl : Duration
  pub api_token : String
  pub connector_enabled : Bool
  pub connector_url : String
  pub connector_admin_token : String
  pub connector_provision_token : String
  pub connector_bot_id : String
  pub connector_platform : String
  pub wake_base_url : String
  pub orphan_policy : String
  pub status_enabled : Bool
  pub status_port : ℤ
  pub status_timeout : Duration
  pub status_username : String
  pub status_password : String
  pub idle_horizon : Duration
  pub wake_boot_margin : Duration
  pub exposure_enabled : Bool
  pub dashboard_domain : String
  pub dashboard_ingress_class : String
  pub dashboard_tls_secret : String
  pub dashboard_deny_service : String
  pub log_level : String
  pub log_format : String
