-- ===== src/Tests/Configuring.antt =====
-- A run of the theorem on the configuration.
use hermes_cluster.Clock.ParseDuration.{parse_duration}
use hermes_cluster.Base.{
  ◌*◌, ◌/◌, String, refl, true, false, Option, none, some, ◌==◌, if◌then◌else◌,
}
use hermes_cluster.Base.Int.{pos, wrap64, ◌*ℤ◌}
use hermes_cluster.Base.Decimal.{parse_int, parse_uint, parse_digits}
use hermes_cluster.Clock.{seconds}
use hermes_cluster.Base.Text.{trim_left, trim_right}
use hermes_cluster.Config.{Env, Config}
use hermes_cluster.Config.Reading.{
  getenv, bool_of, get_bool, int_of, get_int, duration_of, get_duration, secret_of, load_secret,
  namespace_of,
}
use hermes_cluster.Config.Checks.{check_connector, check_status, check_dashboard, validate}
use hermes_cluster.Config.Load.{read_config, load_config}
use hermes_cluster.Config.Laws.{IsValid, load_config-IsValid}

-- polling is on, with a token from a file and a sweep every ninety seconds
abbrev pub variables : String → Option String
variables key =
    if key == "HLM_WARM_POOL"
    then some "pool"
    else if key == "HLM_STATUS_ENABLED"
    then some "Yes"
    else if key == "HLM_API_TOKEN_FILE"
    then some "/token"
    else if key == "HLM_SWEEP_INTERVAL"
    then some "1m30.0s"
    else none

abbrev pub environment : Env
environment = record {
  lookup_env = variables;
  read_file = λ path. if path == "/token" then some " secret " else none;
  fraction = λ f scale unit. f * unit / scale;
}

abbrev pub settings : Config
settings = record {
  listen = ":8080";
  namespace = "default";
  warm_pool = "pool";
  sandbox_api_group = "agents.x-k8s.io";
  sandbox_ext_api_group = "extensions.agents.x-k8s.io";
  sandbox_api_version = "v1beta1";
  sweep_interval = pos 90000000000;
  idle_timeout = pos 1800000000000;
  ttl = pos 0;
  api_token = "secret";
  connector_enabled = false;
  connector_url = "";
  connector_admin_token = "";
  connector_provision_token = "";
  connector_bot_id = "";
  connector_platform = "discord";
  wake_base_url = "";
  orphan_policy = "report";
  status_enabled = true;
  status_port = pos 9119;
  status_timeout = pos 3000000000;
  status_username = "";
  status_password = "";
  idle_horizon = pos 300000000000;
  wake_boot_margin = pos 120000000000;
  exposure_enabled = false;
  dashboard_domain = "";
  dashboard_ingress_class = "webapprouting.kubernetes.azure.com";
  dashboard_tls_secret = "";
  dashboard_deny_service = "";
  log_level = "info";
  log_format = "json";
}

load_config-IsValid_example : IsValid settings
unfolding load_config read_config validate check_connector check_status check_dashboard getenv
    get_bool bool_of get_int int_of get_duration duration_of load_secret secret_of namespace_of
    trim_left trim_right parse_int parse_uint parse_digits seconds wrap64 ◌*ℤ◌ parse_duration
load_config-IsValid_example = load_config-IsValid environment settings refl
