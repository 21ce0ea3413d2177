-- ===== src/Config/Load.antt =====
-- Load, which reads the settings and checks them (config/config.go).
use hermes_cluster.Base.{String, false, eqb}
use hermes_cluster.Base.Int.{pos}
use hermes_cluster.Base.Text.{trim_right}
use hermes_cluster.Base.Exec.{Exec, Result, Done, ok, err, pure, lift, ◌>>=◌}
use hermes_cluster.Config.{Env, Config}
use hermes_cluster.Config.Reading.{
  getenv, get_bool, get_int, get_duration, load_secret, namespace_of,
}
use hermes_cluster.Config.Checks.{validate}

-- strings.TrimRight with "/"
abbrev pub trim_slashes : String → String
trim_slashes s = trim_right (λ c. eqb c b'/') s

-- the reading of Load, in its order
unfoldable pub read_config : Exec Env Config
unfolding getenv get_bool get_int get_duration load_secret namespace_of trim_right
read_config = do
  listen ← getenv "HLM_LISTEN" ":8080"
  namespace ← getenv "HLM_NAMESPACE" ""
  warm_pool ← getenv "HLM_WARM_POOL" ""
  group ← getenv "HLM_SANDBOX_API_GROUP" "agents.x-k8s.io"
  ext_group ← getenv "HLM_SANDBOX_EXT_API_GROUP" "extensions.agents.x-k8s.io"
  version ← getenv "HLM_SANDBOX_API_VERSION" "v1beta1"
  connector_url ← getenv "HLM_CONNECTOR_URL" ""
  bot_id ← getenv "HLM_CONNECTOR_BOT_ID" ""
  platform ← getenv "HLM_CONNECTOR_PLATFORM" "discord"
  wake_base_url ← getenv "HLM_WAKE_BASE_URL" ""
  orphan_policy ← getenv "HLM_ORPHAN_POLICY" "report"
  log_level ← getenv "HLM_LOG_LEVEL" "info"
  log_format ← getenv "HLM_LOG_FORMAT" "json"
  sweep_interval ← get_duration "HLM_SWEEP_INTERVAL" (pos 60000000000)
  idle_timeout ← get_duration "HLM_IDLE_TIMEOUT" (pos 1800000000000)
  ttl ← get_duration "HLM_TTL" (pos 0)
  connector_enabled ← get_bool "HLM_CONNECTOR_ENABLED" false
  api_token ← load_secret "HLM_API_TOKEN"
  admin_token ← load_secret "HLM_CONNECTOR_ADMIN_TOKEN"
  provision_token ← load_secret "HLM_CONNECTOR_PROVISION_TOKEN"
  status_enabled ← get_bool "HLM_STATUS_ENABLED" false
  status_port ← get_int "HLM_STATUS_PORT" (pos 9119)
  status_timeout ← get_duration "HLM_STATUS_TIMEOUT" (pos 3000000000)
  status_username ← getenv "HLM_STATUS_BASIC_AUTH_USERNAME" ""
  status_password ← load_secret "HLM_STATUS_BASIC_AUTH_PASSWORD"
  idle_horizon ← get_duration "HLM_IDLE_HORIZON" (pos 300000000000)
  wake_boot_margin ← get_duration "HLM_WAKE_BOOT_MARGIN" (pos 120000000000)
  exposure_enabled ← get_bool "HLM_EXPOSURE_ENABLED" false
  domain ← getenv "HLM_DASHBOARD_DOMAIN" ""
  ingress_class ← getenv "HLM_DASHBOARD_INGRESS_CLASS" "webapprouting.kubernetes.azure.com"
  tls_secret ← getenv "HLM_DASHBOARD_TLS_SECRET" ""
  deny_service ← getenv "HLM_DASHBOARD_DENY_SERVICE" ""
  resolved ← namespace_of namespace
  pure (record {
    listen = listen;
    namespace = resolved;
    warm_pool = warm_pool;
    sandbox_api_group = group;
    sandbox_ext_api_group = ext_group;
    sandbox_api_version = version;
    sweep_interval = sweep_interval;
    idle_timeout = idle_timeout;
    ttl = ttl;
    api_token = api_token;
    connector_enabled = connector_enabled;
    connector_url = trim_slashes connector_url;
    connector_admin_token = admin_token;
    connector_provision_token = provision_token;
    connector_bot_id = bot_id;
    connector_platform = platform;
    wake_base_url = trim_slashes wake_base_url;
    orphan_policy = orphan_policy;
    status_enabled = status_enabled;
    status_port = status_port;
    status_timeout = status_timeout;
    status_username = status_username;
    status_password = status_password;
    idle_horizon = idle_horizon;
    wake_boot_margin = wake_boot_margin;
    exposure_enabled = exposure_enabled;
    dashboard_domain = domain;
    dashboard_ingress_class = ingress_class;
    dashboard_tls_secret = tls_secret;
    dashboard_deny_service = deny_service;
    log_level = log_level;
    log_format = log_format;
  })

abbrev pub accepted : Config → Done → Result Config
accepted c (ok _) = ok c
accepted c (err e) = err e

-- Load
unfoldable pub load_config : Exec Env Config
unfolding read_config validate
load_config = do c ← read_config; lift (accepted c (validate c))
