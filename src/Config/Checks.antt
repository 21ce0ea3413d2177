-- ===== src/Config/Checks.antt =====
-- The checks at the end of Load (config/config.go).
use hermes_cluster.Base.{String, Bool, true, false, not, ◌&&◌, ◌||◌, ◌==◌, if◌then◌else◌}
use hermes_cluster.Base.Int.{pos, ltb_ℤ}
use hermes_cluster.Base.Errors.{other}
use hermes_cluster.Base.Exec.{Done, ok, err}
use hermes_cluster.Clock.{second}
use hermes_cluster.Config.{Config}

abbrev pub require : Bool → String → Done
require test message = if test then ok tt else err (other message)

abbrev pub then_check : Done → Done → Done
then_check (ok _) next = next
then_check (err e) next = err e

-- a check that applies only under a condition
abbrev pub check_if : Bool → Done → Done
check_if condition check = if condition then check else ok tt

unfoldable pub check_connector : Config → Done
check_connector c =
    then_check (require (not (c.connector_url == "")) "HLM_CONNECTOR_URL is required") (
      then_check
        (require (not (c.connector_admin_token == ""))
          "HLM_CONNECTOR_ADMIN_TOKEN(_FILE) is required")
        (then_check (require (not (c.wake_base_url == "")) "HLM_WAKE_BASE_URL is required") (
          require (not (not (c.connector_provision_token == "") && c.connector_bot_id == ""))
            "HLM_CONNECTOR_BOT_ID is required")))

abbrev differ : Bool → Bool → Bool
differ true b = not b
differ false b = b

unfoldable pub check_status : Config → Done
check_status c =
    then_check
      (require (not (ltb_ℤ c.status_port (pos 1) || ltb_ℤ (pos 65535) c.status_port))
        "HLM_STATUS_PORT must be a valid port")
      (then_check (require (not (ltb_ℤ c.status_timeout second)) "HLM_STATUS_TIMEOUT must be >= 1s")
        (then_check
          (require (not (differ (c.status_username == "") (c.status_password == "")))
            "HLM_STATUS_BASIC_AUTH_USERNAME and HLM_STATUS_BASIC_AUTH_PASSWORD(_FILE) must be set together")
          (require (not (ltb_ℤ c.idle_horizon c.wake_boot_margin))
            "HLM_IDLE_HORIZON must be >= HLM_WAKE_BOOT_MARGIN")))

unfoldable pub check_dashboard : Config → Done
check_dashboard c =
    then_check
      (require c.exposure_enabled "HLM_DASHBOARD_DOMAIN requires HLM_EXPOSURE_ENABLED=true")
      (then_check
        (require (not (c.dashboard_tls_secret == "")) "HLM_DASHBOARD_TLS_SECRET is required")
        (require (not (c.dashboard_deny_service == "")) "HLM_DASHBOARD_DENY_SERVICE is required"))

-- the checks at the end of Load, in their order
unfoldable pub validate : Config → Done
unfolding check_connector check_status check_dashboard
validate c = then_check (require (not (c.warm_pool == "")) "HLM_WARM_POOL is required") (
    then_check (require (not (ltb_ℤ c.sweep_interval second)) "HLM_SWEEP_INTERVAL must be >= 1s") (
      then_check
        (require (c.orphan_policy == "report") "HLM_ORPHAN_POLICY: only \"report\" is implemented")
        (then_check (check_if c.connector_enabled (check_connector c)) (
          then_check (check_if c.status_enabled (check_status c))
            (check_if (not (c.dashboard_domain == "")) (check_dashboard c))))))
