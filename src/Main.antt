-- ===== src/Main.antt =====
-- lifecycle-manager/cmd/lifecycle-manager/main.go: how the parts are put together. The logger, the
-- signals and the listening of the HTTP server are left out; `start` is what happens before the
-- sweeper and the server run, and an error is an exit with status 1.
pub mod Laws
use hermes_cluster.Base.{String, true, Option, none, some, if◌then◌else◌}
use hermes_cluster.Base.Int.{ℤ}
use hermes_cluster.Base.Exec.{Result, ok, err}
use hermes_cluster.Clock.{Duration}
use hermes_cluster.Config.{Env, Config}
use hermes_cluster.Config.Load.{load_config}
use hermes_cluster.K8s.Unstructured.{Accessors}
use hermes_cluster.K8s.Dynamic.{Options, DynamicClient, Loading, new_dynamic_client}
use hermes_cluster.K8s.Dynamic.Exposure.{dynamic_client}
use hermes_cluster.Connector
use hermes_cluster.Agent
use hermes_cluster.Lifecycle.{Manager, Defaults}
use hermes_cluster.Sweeper.{Runner, ExposureConfig}
use hermes_cluster.HttpApi.{Server}

-- What the program is given: the loading of a cluster's configuration, the accessors of
-- apimachinery, the network to a connector's URL and to the agents under a timeout.
pub record Outside (C KS CS AS : Type 0) : Type 0 where
  pub loading : Loading C KS
  pub access : Accessors
  pub connector_web : String → Connector.Http.Web CS
  pub agent_web : Duration → Agent.Http.Web AS

-- what runs once the program has started
pub record Program (KS CS AS : Type 0) : Type 0 where
  pub runner : Runner KS (Connector.Http.HttpState CS) AS
  pub server : Server KS (Connector.Http.HttpState CS) AS

unfoldable pub options_of : Config → Options
options_of cfg = record {
  namespace = cfg.namespace;
  group = cfg.sandbox_api_group;
  ext_group = cfg.sandbox_ext_api_group;
  version = cfg.sandbox_api_version;
}

unfoldable pub defaults_of : Config → Defaults
defaults_of cfg = record {
  warm_pool = cfg.warm_pool;
  ttl = cfg.ttl;
  idle_timeout = cfg.idle_timeout;
  platform = cfg.connector_platform;
  bot_id = cfg.connector_bot_id;
  wake_base_url = cfg.wake_base_url;
}

unfoldable pub exposure_of : Config → Option ExposureConfig
exposure_of cfg =
    if cfg.exposure_enabled
    then some (record {
      port = cfg.status_port;
      domain = cfg.dashboard_domain;
      ingress_class = cfg.dashboard_ingress_class;
      tls_secret = cfg.dashboard_tls_secret;
      deny_service = cfg.dashboard_deny_service;
    })
    else none

module _ {C KS CS AS : Type 0} (o : Outside C KS CS AS) where
  -- connector.NewHTTPClient where the integration is on
  unfoldable pub connector_of : Config → Connector.Client (Connector.Http.HttpState CS)
  connector_of cfg =
      if cfg.connector_enabled
      then Connector.Http.http_client (record {
        web = o.connector_web cfg.connector_url;
        admin_token = cfg.connector_admin_token;
        provision_token = cfg.connector_provision_token;
      })
      else Connector.disabled_client

  -- agent.NewHTTPClient where polling is on
  unfoldable pub agent_of : Config → Agent.Client AS
  agent_of cfg =
      if cfg.status_enabled
      then Agent.Http.http_client (record {
        web = o.agent_web cfg.status_timeout;
        port = cfg.status_port;
        username = cfg.status_username;
        password = cfg.status_password;
      })
      else Agent.disabled_client

  unfoldable pub manager_of :
      Config → DynamicClient KS → Manager KS (Connector.Http.HttpState CS) AS
  unfolding connector_of agent_of defaults_of
  manager_of cfg cluster = record {
    k8s = dynamic_client cluster;
    connector = connector_of cfg;
    agent = some (agent_of cfg);
    defaults = defaults_of cfg;
  }

  -- the sweeper and the HTTP server share the manager and the reconcile store
  unfoldable pub program_of : Config → DynamicClient KS → Program KS CS AS
  unfolding manager_of exposure_of
  program_of cfg cluster = record {
    runner = record {
      manager = manager_of cfg cluster;
      interval = cfg.sweep_interval;
      reconciles = true;
      idle_horizon = cfg.idle_horizon;
      wake_boot_margin = cfg.wake_boot_margin;
      exposure = exposure_of cfg;
    };
    server = record {
      manager = manager_of cfg cluster;
      api_token = cfg.api_token;
      reconciles = true;
    };
  }

  unfoldable pub started : Config → Result (DynamicClient KS) → Result (Program KS CS AS)
  unfolding program_of
  started cfg (err e) = err e
  started cfg (ok cluster) = ok (program_of cfg cluster)

  unfoldable pub configured : Result Config → Result (Program KS CS AS)
  unfolding started options_of
  configured (err e) = err e
  configured (ok cfg) = started cfg (new_dynamic_client o.loading o.access (options_of cfg))

  -- main, up to the start of the sweeper and the server
  unfoldable pub start : Env → Result (Program KS CS AS)
  unfolding configured
  start e = configured (load_config e).0
