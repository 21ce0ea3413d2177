-- ===== src/Tests/Starting.antt =====
-- Runs of the theorems on the start of the program and on the client of a real cluster.
use hermes_cluster.Clock.ParseDuration.{parse_duration}
use hermes_cluster.Base.{◌≡◌, refl, none, some, arith, subst}
use hermes_cluster.Base.Int.{◌+ℤ◌, ◌-ℤ◌, ◌<ℤ◌, wrap64, saturate64, ◌*ℤ◌}
use hermes_cluster.Base.Text.{trim_left, trim_right}
use hermes_cluster.Base.Decimal.{parse_int, parse_uint, parse_digits}
use hermes_cluster.Base.Errors.{other}
use hermes_cluster.Base.Exec.{ok, err}
use hermes_cluster.Clock.{Time, seconds, sub, add}
use hermes_cluster.Config.{Config}
use hermes_cluster.Config.Reading.{
  getenv, bool_of, get_bool, int_of, get_int, duration_of, get_duration, secret_of, load_secret,
  namespace_of,
}
use hermes_cluster.Config.Checks.{check_connector, check_status, check_dashboard, validate}
use hermes_cluster.Config.Load.{read_config, load_config}
use hermes_cluster.Config.Laws.{IsValid}
use hermes_cluster.K8s.Contract.{Contract}
use hermes_cluster.K8s.Dynamic.{Options, DynamicClient, new_with_interface, new_dynamic_client}
use hermes_cluster.K8s.Dynamic.Exposure.{dynamic_client}
use hermes_cluster.K8s.Dynamic.Server.{Serves}
use hermes_cluster.K8s.Dynamic.Reads.{Sane, view_of}
use hermes_cluster.Sweeper.Idle.{decide_cron}
use hermes_cluster.Main.{Outside, Program, options_of, program_of, agent_of, start}
use hermes_cluster.Main.Laws.{IsWired, IsAimed, start-IsWired, start-wakes_ahead, start-Contract}
use hermes_cluster.Tests.{at}
use hermes_cluster.Tests.Configuring.{environment, settings}
use hermes_cluster.Tests.Cluster.{accessors, accessors-Reads}
use hermes_cluster.Tests.Cluster.Store.{Cluster, api, objects}
use hermes_cluster.Tests.Cluster.Store
use hermes_cluster.Tests.Cluster.Serving.{server-Serves}

abbrev outside : Outside Unit Cluster Unit Unit
outside = record {
  loading = record {
    in_cluster_config = ok tt;
    kubeconfig = "";
    user_home_dir = err (other "no home");
    join = λ a b c. a;
    build_config_from_flags = λ path. err (other "no file");
    new_for_config = λ cfg. ok api;
  };
  access = accessors;
  connector_web = λ url. record {
    send = λ r s. (err (other "refused"), s);
    decode_provision = λ t. none;
    decode_instances = λ t. none;
    decode_routes = λ t. none;
    read_error_body = λ t. t;
    path_escape = λ t. t;
    query_escape = λ t. t;
  };
  agent_web = λ timeout. record {
    get = λ url s. (err (other "refused"), s);
    post_login = λ url user password s. (err (other "refused"), s);
    decode_report = λ t. none;
    decode_jobs = λ t. none;
  };
}

abbrev program : Program Cluster Unit Unit
program =
    program_of outside settings
      (new_with_interface api accessors (unfold options_of in options_of settings))

program_starts : start outside environment ≡ ok program
unfolding start options_of new_dynamic_client load_config read_config validate check_connector
    check_status check_dashboard getenv get_bool bool_of get_int int_of get_duration duration_of
    load_secret secret_of namespace_of trim_left trim_right parse_int parse_uint parse_digits
    seconds wrap64 ◌*ℤ◌ parse_duration
program_starts = refl

start-IsWired_example :
    (cfg : Config) × ((load_config environment).0 ≡ ok cfg)
    × IsValid cfg
    × IsWired outside cfg program
start-IsWired_example = start-IsWired outside environment program program_starts

start-wakes_ahead_example :
    (t : Time) × (some (at 880) ≡ some t)
    × (t +ℤ program.runner.wake_boot_margin ≡ at 1000)
    × (at 0 <ℤ t)
unfolding program_of agent_of decide_cron sub saturate64 ◌-ℤ◌ ◌+ℤ◌ wrap64 add
start-wakes_ahead_example =
    start-wakes_ahead outside environment program (at 1000) (at 0) (some (at 880)) program_starts
      refl (omega arith) (omega arith) refl

-- the test cluster serves every client that the settings ask for
settings-served :
    (cfg : Config) (c : DynamicClient Cluster)
    → (load_config environment).0 ≡ ok cfg
    → IsAimed outside cfg c
    → Serves c objects Store.IsValid
settings-served cfg c loaded aimed =
    let (conf, made) = aimed.loaded in
    let opts : Options = record {
      namespace = cfg.namespace;
      group = cfg.sandbox_api_group;
      ext_group = cfg.sandbox_ext_api_group;
      version = cfg.sandbox_api_version;
    } in
    let same : new_with_interface api accessors opts ≡ c = ground (
      arith, aimed.access, aimed.namespace, aimed.claims, aimed.sandboxes, aimed.services,
      aimed.ingresses, aimed.api_version,
    ) in
    subst (λ d. Serves d objects Store.IsValid) same (server-Serves opts)

start-Contract_example :
    (cfg : Config) × (c : DynamicClient Cluster) × ((load_config environment).0 ≡ ok cfg)
    × IsAimed outside cfg c
    × (program.runner.manager.k8s ≡ dynamic_client c)
    × (program.server.manager.k8s ≡ dynamic_client c)
    × Contract program.runner.manager.k8s (view_of c objects) (Sane c objects Store.IsValid)
    × Contract program.server.manager.k8s (view_of c objects) (Sane c objects Store.IsValid)
start-Contract_example =
    start-Contract outside objects Store.IsValid environment program settings-served accessors-Reads
      program_starts
