-- ===== src/Config/Laws.antt =====
-- What a configuration that was accepted satisfies (config/config.go).
use hermes_cluster.Base.{
  String, ◌≡◌, ◌≢◌, ◌↔◌, refl, subst, Bool, true, false, not, ◌==◌, eq_iff, arith, inl, inr,
}
use hermes_cluster.Base.Int.{pos, ltb_ℤ, ◌≤ℤ◌}
use hermes_cluster.Base.Exec.{Done, ok, err, Result-cases, Done-cases}
use hermes_cluster.Clock.{Duration, second}
use hermes_cluster.Config.{Env, Config}
use hermes_cluster.Config.Checks.{
  require, then_check, check_if, check_connector, check_status, check_dashboard, validate,
}
use hermes_cluster.Config.Load.{read_config, load_config}

-- What the connector integration needs.
pub record HasConnector (c : Config) : Type 0 where
  pub url : c.connector_url ≢ ""
  pub admin_token : c.connector_admin_token ≢ ""
  pub wake_base_url : c.wake_base_url ≢ ""
  pub bot_id : c.connector_provision_token ≢ "" → c.connector_bot_id ≢ ""

-- What the polling of agents needs. The horizon is at least the margin, so that a wake that the
-- sweeper stamps is never in the past.
pub record HasPolling (c : Config) : Type 0 where
  pub port : (pos 1 ≤ℤ c.status_port) × (c.status_port ≤ℤ pos 65535)
  pub timeout : second ≤ℤ c.status_timeout
  pub credentials : (c.status_username ≡ "") ↔ (c.status_password ≡ "")
  pub horizon : c.wake_boot_margin ≤ℤ c.idle_horizon

-- What a dashboard domain needs.
pub record HasDashboard (c : Config) : Type 0 where
  pub exposure : c.exposure_enabled ≡ true
  pub tls_secret : c.dashboard_tls_secret ≢ ""
  pub deny_service : c.dashboard_deny_service ≢ ""

pub record IsValid (c : Config) : Type 0 where
  pub warm_pool : c.warm_pool ≢ ""
  pub sweep_interval : second ≤ℤ c.sweep_interval
  pub orphan_policy : c.orphan_policy ≡ "report"
  pub connector : c.connector_enabled ≡ true → HasConnector c
  pub polling : c.status_enabled ≡ true → HasPolling c
  pub dashboard : c.dashboard_domain ≢ "" → HasDashboard c

check_connector-HasConnector : (c : Config) → check_connector c ≡ ok tt → HasConnector c
unfolding check_connector
check_connector-HasConnector c h = record {
  url = ground (arith, eq_iff c.connector_url "");
  admin_token = ground (arith, eq_iff c.connector_admin_token "");
  wake_base_url = ground (arith, eq_iff c.wake_base_url "");
  bot_id = ground (arith, eq_iff c.connector_provision_token "", eq_iff c.connector_bot_id "");
}

check_status-HasPolling : (c : Config) → check_status c ≡ ok tt → HasPolling c
unfolding check_status
check_status-HasPolling c h = record {
  port = ground arith;
  timeout = ground arith;
  credentials = ground (arith, eq_iff c.status_username "", eq_iff c.status_password "");
  horizon = ground arith;
}

check_dashboard-HasDashboard : (c : Config) → check_dashboard c ≡ ok tt → HasDashboard c
unfolding check_dashboard
check_dashboard-HasDashboard c h = record {
  exposure = ground arith;
  tls_secret = ground (arith, eq_iff c.dashboard_tls_secret "");
  deny_service = ground (arith, eq_iff c.dashboard_deny_service "");
}

set_clash : (text : String) → not (text == "") ≡ true → text ≡ "" → ⊥
set_clash text h e = ground (arith, eq_iff text "")

is_set : (text : String) → text ≢ "" → not (text == "") ≡ true
is_set text h = ground (arith, eq_iff text "")

at_least : (d : Duration) → not (ltb_ℤ d second) ≡ true → second ≤ℤ d
at_least d h = ground arith

then_check-both : (a b : Done) → then_check a b ≡ ok tt → (a ≡ ok tt) × (b ≡ ok tt)
then_check-both (ok _) b h = (refl, h)
then_check-both (err e) b h = absurd (ground arith)

require-true : (test : Bool) (message : String) → require test message ≡ ok tt → test ≡ true
require-true true message h = refl
require-true false message h = absurd (ground arith)

check_if-on :
    (condition : Bool) (check : Done)
    → check_if condition check ≡ ok tt
    → condition ≡ true
    → check ≡ ok tt
check_if-on true check h on = h
check_if-on false check h on = absurd (ground arith)

validate-IsValid : (c : Config) → validate c ≡ ok tt → IsValid c
unfolding validate
validate-IsValid c h =
    let (pool, h₁) = then_check-both _ _ h in
    let (interval, h₂) = then_check-both _ _ h₁ in
    let (policy, h₃) = then_check-both _ _ h₂ in
    let (connector, h₄) = then_check-both _ _ h₃ in
    let (polling, dashboard) = then_check-both _ _ h₄ in
    let pool_set = require-true _ _ pool in
    let slow = require-true _ _ interval in
    let report = require-true _ _ policy in
    record {
      warm_pool = λ e. set_clash c.warm_pool pool_set e;
      sweep_interval = at_least c.sweep_interval slow;
      orphan_policy = (eq_iff c.orphan_policy "report").0 report;
      connector = λ on. check_connector-HasConnector c (check_if-on _ _ connector on);
      polling = λ on. check_status-HasPolling c (check_if-on _ _ polling on);
      dashboard = λ set.
          check_dashboard-HasDashboard c
            (check_if-on _ _ dashboard (is_set c.dashboard_domain set));
    }

-- A configuration that Load returns is fit to run on: it names a warm pool, sweeps no more often than
-- every second, and reports orphans only. With the connector enabled it has the URL, the admin
-- token, the base of the wake URLs, and a bot id if it has a provision token. With polling enabled
-- the port is a port, the timeout is at least a second, the credentials are given together, and the
-- idle horizon is at least the boot margin. A dashboard domain comes with exposure, the certificate's
-- secret and the deny service.
pub load_config-IsValid : (e : Env) (c : Config) → (load_config e).0 ≡ ok c → IsValid c
unfolding load_config
load_config-IsValid e c h = elim (Result-cases (read_config e).0) [
  | inr (x, unread) ↦ absurd (ground arith)
  | inl (d, read) ↦ elim (Done-cases (validate d)) [
    | inr (x, refused) ↦ absurd (ground arith)
    | inl valid ↦
        let same : d ≡ c = ground arith in subst (λ k. IsValid k) same (validate-IsValid d valid)
  ]
]
