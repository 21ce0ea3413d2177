-- ===== src/Main/Laws.antt =====
-- What holds of a program that has started (cmd/lifecycle-manager/main.go).
use hermes_cluster.Base.{
  String, ◌∙◌, sym, subst, ◌≡◌, ◌-◌, refl, ap, true, false, Option, none, some, arith, inl, inr,
  Bool-cases,
}
use hermes_cluster.Base.Text.{◌<>◌}
use hermes_cluster.Base.Int.{pos, ◌+ℤ◌, ◌≤ℤ◌, ◌<ℤ◌, half_range}
use hermes_cluster.Base.Exec.{ok, Result-cases}
use hermes_cluster.Clock.{Time, second}
use hermes_cluster.Config.{Env, Config}
use hermes_cluster.Config.Load.{load_config}
use hermes_cluster.Config.Laws.{IsValid, load_config-IsValid}
use hermes_cluster.K8s
use hermes_cluster.K8s.Contract.{Contract}
use hermes_cluster.K8s.Value.{Value}
use hermes_cluster.K8s.Unstructured.Access.{Reads}
use hermes_cluster.K8s.Dynamic.{
  Api, Resource, DynamicClient, new_with_interface, config_of, connected, new_dynamic_client,
}
use hermes_cluster.K8s.Dynamic.Exposure.{dynamic_client}
use hermes_cluster.K8s.Dynamic.Server.{Serves}
use hermes_cluster.K8s.Dynamic.Reads.{Sane, view_of}
use hermes_cluster.K8s.Dynamic.Sound.{dynamic_client-Contract}
use hermes_cluster.Connector
use hermes_cluster.Agent
use hermes_cluster.Lifecycle.{agent_client}
use hermes_cluster.Sweeper.Idle.{decide_cron}
use hermes_cluster.Sweeper.Idle.Cron.{decide_cron-ahead}
use hermes_cluster.Main.{
  Outside, Program, options_of, program_of, manager_of, connector_of, agent_of, exposure_of, start,
}

module _ {C KS CS AS : Type 0} (o : Outside C KS CS AS) where
  -- A program starts from a configuration that Load returned and a client for its cluster.
  pub start-inverts :
      (e : Env) (p : Program KS CS AS)
      → start o e ≡ ok p
      → (cfg : Config) × (cluster : DynamicClient KS) × ((load_config e).0 ≡ ok cfg)
        × (new_dynamic_client o.loading o.access (options_of cfg) ≡ ok cluster)
        × (p ≡ program_of o cfg cluster)
  unfolding start
  start-inverts e p h = elim (Result-cases (load_config e).0) [
    | inr (failure, refused) ↦ absurd (ground arith)
    | inl (cfg, loaded) ↦
        elim (Result-cases (new_dynamic_client o.loading o.access (options_of cfg))) [
          | inr (failure, refused) ↦ absurd (ground arith)
          | inl (cluster, reached) ↦ (cfg, cluster, loaded, reached, ground arith)
        ]
  ]

  -- what the switches of the configuration turn on and off
  pub record IsWired (cfg : Config) (p : Program KS CS AS) : Type 0 where
    pub interval : second ≤ℤ p.runner.interval
    pub no_connector :
        cfg.connector_enabled ≡ false → p.runner.manager.connector ≡ Connector.disabled_client
    pub no_polling :
        cfg.status_enabled ≡ false → agent_client p.runner.manager ≡ Agent.disabled_client
    pub no_exposure : cfg.exposure_enabled ≡ false → p.runner.exposure ≡ none
    pub horizon : cfg.status_enabled ≡ true → p.runner.wake_boot_margin ≤ℤ p.runner.idle_horizon
    pub shared : p.server.manager ≡ p.runner.manager
    pub token : p.server.api_token ≡ cfg.api_token

  program_of-IsWired :
      (cfg : Config) (cluster : DynamicClient KS)
      → IsValid cfg
      → IsWired cfg (program_of o cfg cluster)
  unfolding program_of
  program_of-IsWired cfg cluster valid = record {
    interval = valid.sweep_interval;
    no_connector = λ off. rw (manager_of, connector_of, off) refl;
    no_polling = λ off. rw (manager_of, agent_of, off) refl;
    no_exposure = λ off. rw (exposure_of, off) refl;
    horizon = λ polls. (valid.polling polls).horizon;
    shared = refl;
    token = refl;
  }

  -- A program that starts runs on a configuration that Load accepted. Its sweeper and its server
  -- share one manager; what the configuration switches off is not there: the connector, the polling
  -- of agents, the exposure. It sweeps no more often than every second, and where it polls, its
  -- horizon is at least the boot margin.
  pub start-IsWired :
      (e : Env) (p : Program KS CS AS)
      → start o e ≡ ok p
      → (cfg : Config) × ((load_config e).0 ≡ ok cfg) × IsValid cfg × IsWired cfg p
  start-IsWired e p h =
      let (cfg, cluster, loaded, reached, same) = start-inverts e p h in
      let valid = load_config-IsValid e cfg loaded in
      (
        cfg,
        loaded,
        valid,
        subst (λ q. IsWired cfg q) (sym same) (program_of-IsWired cfg cluster valid),
      )

  polls_only_if :
      (cfg : Config) (p : Program KS CS AS)
      → IsWired cfg p
      → (agent_client p.runner.manager).enabled ≡ true
      → cfg.status_enabled ≡ true
  unfolding Agent.disabled_client
  polls_only_if cfg p wired polls = elim (Bool-cases cfg.status_enabled) [
    | inl on ↦ on
    | inr off ↦ absurd (cc (ap (λ a. a.enabled) (wired.no_polling off)))
  ]

  -- In a program that has started and that polls agents, with a boot margin that is not negative,
  -- every suspend that the cron half lets through before a known fire comes with a wake exactly the
  -- margin before that fire, and still ahead.
  pub start-wakes_ahead :
      (e : Env) (p : Program KS CS AS) (fire now : Time) (wake : Option Time)
      → start o e ≡ ok p
      → (agent_client p.runner.manager).enabled ≡ true
      → pos 0 ≤ℤ p.runner.wake_boot_margin
      → p.runner.idle_horizon <ℤ pos (half_range - 1)
      → decide_cron (some fire) now p.runner.idle_horizon p.runner.wake_boot_margin ≡ some wake
      → (t : Time) × (wake ≡ some t) × (t +ℤ p.runner.wake_boot_margin ≡ fire) × (now <ℤ t)
  start-wakes_ahead e p fire now wake h polls low fits decided =
      let (cfg, loaded, valid, wired) = start-IsWired e p h in
      let horizon = wired.horizon (polls_only_if cfg p wired polls) in
      decide_cron-ahead fire now p.runner.idle_horizon p.runner.wake_boot_margin wake fits low
        horizon decided

  -- the cluster's client is made by newWithInterface over a loaded interface
  new_dynamic_client-inverts :
      (cfg : Config) (cluster : DynamicClient KS)
      → new_dynamic_client o.loading o.access (options_of cfg) ≡ ok cluster
      → (conf : C) × (api : Api KS) × (o.loading.new_for_config conf ≡ ok api)
        × (cluster ≡ new_with_interface api o.access (options_of cfg))
  unfolding new_dynamic_client connected
  new_dynamic_client-inverts cfg cluster h = elim (Result-cases (config_of o.loading)) [
    | inr (e, failed) ↦ absurd (ground arith)
    | inl (conf, loaded) ↦ elim (Result-cases (o.loading.new_for_config conf)) [
      | inr (e, failed) ↦ absurd (ground arith)
      | inl (api, made) ↦ (conf, api, made, ground arith)
    ]
  ]

  -- The client of a cluster that a configuration asks for: an interface that the loading made, in
  -- the configured namespace, with claims under the extension group and sandboxes under the other.
  pub record IsAimed (cfg : Config) (c : DynamicClient KS) : Type 0 where
    pub loaded : (conf : C) × (o.loading.new_for_config conf ≡ ok c.api)
    pub access : c.access ≡ o.access
    pub namespace : c.namespace ≡ cfg.namespace
    pub claims : c.claim_gvr ≡ record {
      group = cfg.sandbox_ext_api_group;
      version = cfg.sandbox_api_version;
      resource = "sandboxclaims";
    }
    pub sandboxes : c.sbox_gvr ≡ record {
      group = cfg.sandbox_api_group;
      version = cfg.sandbox_api_version;
      resource = "sandboxes";
    }
    pub services : c.svc_gvr ≡ record { group = ""; version = "v1"; resource = "services" }
    pub ingresses :
        c.ing_gvr ≡ record { group = "networking.k8s.io"; version = "v1"; resource = "ingresses" }
    pub api_version :
        c.claim_api_version ≡ cfg.sandbox_ext_api_group <> "/" <> cfg.sandbox_api_version

  client-IsAimed :
      (cfg : Config) (conf : C) (api : Api KS)
      → o.loading.new_for_config conf ≡ ok api
      → IsAimed cfg (new_with_interface api o.access (options_of cfg))
  unfolding options_of
  client-IsAimed cfg conf api made = record {
    loaded = (conf, made);
    access = refl;
    namespace = refl;
    claims = refl;
    sandboxes = refl;
    services = refl;
    ingresses = refl;
    api_version = refl;
  }

  -- A program that starts does so on a configuration that Load returned, with one client of the
  -- cluster under its sweeper and its server. That client is over a loaded interface, and addresses
  -- the configured namespace, the claims of the configured extension group and the sandboxes of the
  -- configured group, in the configured version. If every client that such a configuration asks for
  -- is served as documented, and the accessors read as documented, the sweeper and the server have
  -- the contract of the cluster over the objects which that client addresses.
  pub start-Contract :
      (objects : KS → Resource → String → Option Value) (IsSound : KS → Type 0) (e : Env)
      (p : Program KS CS AS)
      → ((cfg : Config) (c : DynamicClient KS)
          → (load_config e).0 ≡ ok cfg
          → IsAimed cfg c
          → Serves c objects IsSound)
      → Reads o.access
      → start o e ≡ ok p
      → (cfg : Config) × (c : DynamicClient KS) × ((load_config e).0 ≡ ok cfg)
        × IsAimed cfg c
        × (p.runner.manager.k8s ≡ dynamic_client c)
        × (p.server.manager.k8s ≡ dynamic_client c)
        × Contract p.runner.manager.k8s (view_of c objects) (Sane c objects IsSound)
        × Contract p.server.manager.k8s (view_of c objects) (Sane c objects IsSound)
  unfolding program_of manager_of
  start-Contract objects IsSound e p serves reads h =
      let (cfg, cluster, loaded, reached, same) = start-inverts e p h in
      let (conf, api, made, built) = new_dynamic_client-inverts cfg cluster reached in
      let c = new_with_interface api o.access (options_of cfg) in
      let aimed = client-IsAimed cfg conf api made in
      let kept =
        dynamic_client-Contract api o.access (options_of cfg) (serves cfg c loaded aimed) reads in
      let whole : p ≡ program_of o cfg c = same ∙ ap (program_of o cfg) built in
      let runs : p.runner.manager.k8s ≡ dynamic_client c = ap (λ q. q.runner.manager.k8s) whole in
      let answers : p.server.manager.k8s ≡ dynamic_client c =
        ap (λ q. q.server.manager.k8s) whole in
      let holds = λ (k : K8s.Client KS). Contract k (view_of c objects) (Sane c objects IsSound) in
      (
        cfg,
        c,
        loaded,
        aimed,
        runs,
        answers,
        subst holds (sym runs) kept,
        subst holds (sym answers) kept,
      )
