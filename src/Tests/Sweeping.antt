-- ===== src/Tests/Sweeping.antt =====
-- Runs of the theorems on the sweeper and the reconcile report.
use mathlib.Core.List.{Memᴰ}
use mathlib.Core.List.Memᴰ
use hermes_cluster.Base.{
  ◌≡◌, ◌↔◌, refl, ap, sym, ◌∙◌, eq_iff, subst, true, false, Option, none, some, List, [], ◌∷◌, ◌==◌,
  ◌⊎◌, arith, is_some,
}
use hermes_cluster.Base.Int.{pos, ◌+ℤ◌, ◌*ℤ◌, wrap64}
use hermes_cluster.Base.Dict.{Dict, lookup, insert, keys, contains}
use hermes_cluster.Base.Decimal.{parse_int, parse_digits, parse_uint}
use hermes_cluster.Clock.Rfc3339
use hermes_cluster.Clock.{Time, seconds, zero_time}
use hermes_cluster.Session.{anno_wake_at}
use hermes_cluster.K8s.{Claim, Sandbox}
use hermes_cluster.K8s.Fake.{
  Fake, add_session, get_claim, get_sandbox, list_claims, delete_claim, patch_claim_annotations,
  patch_sandbox_operating_mode,
}
use hermes_cluster.K8s.Fake.Reads.{view}
use hermes_cluster.K8s.Fake.Sound.{fake_client-Contract}
use hermes_cluster.Connector.{Instance}
use hermes_cluster.Lifecycle.Durations.{effective_duration, effective_ttl, effective_idle_timeout}
use hermes_cluster.Lifecycle.{invalidate_instances}
use hermes_cluster.Lifecycle.Read.{sandbox}
use hermes_cluster.Lifecycle.Control.{
  purged, purge, remove_claim, decommission, wake, satisfy_wake_at, clear_wake_at,
}
use hermes_cluster.Lifecycle.Control.Waking.{IsWoken}
use hermes_cluster.Reconcile.{Report, update, load}
use hermes_cluster.Reconcile.Laws.{Wants, update_iff}
use hermes_cluster.Sweeper.{Runner, Sweeping}
use hermes_cluster.Sweeper.Idle.{IdleInput, decide_idle}
use hermes_cluster.Sweeper.Idle.Laws.{IsIdle, decide_idle_iff}
use hermes_cluster.Sweeper.Quiet.{entries}
use hermes_cluster.Sweeper.Quiet.Laws.{Event, Explains, clock_after, seen, clock_after-Explains}
use hermes_cluster.Sweeper.Timers.{sweep_wake, sweep_ttl}
use hermes_cluster.Sweeper.Timers.Stamped.{sweep_wake-stamped}
use hermes_cluster.Sweeper.Timers.Laws.{sweep_ttl-expires}
use hermes_cluster.Sweeper.Suspend.{sweep_idle}
use hermes_cluster.Sweeper.Suspend.Facts.{Suspends}
use hermes_cluster.Sweeper.Suspend.Laws.{IsJustified, sweep_idle-IsJustified}
use hermes_cluster.Sweeper.Sweep.{sweep}
use hermes_cluster.Sweeper.Sweep.Laws.{sweep-Spares}
use hermes_cluster.Tests.{
  at, cluster, cluster-Sane, asleep, asleep-Sane, session_claim, annotations, accepting,
  idle_instance, manager_with, world_at,
}

abbrev runner : Runner Fake Unit Unit
runner = record {
  manager = manager_with accepting;
  reconciles = true;
  idle_horizon = pos 300000000000;
  wake_boot_margin = pos 120000000000;
  interval = pos 30000000000;
  exposure = none;
}

abbrev before_sweep : Sweeping Fake Unit Unit
before_sweep = record {
  world = world_at 500 cluster;
  quiet_since = some (("s-dc-7", at 0) ∷ []);
  report = none;
}

abbrev known_rows : Option (Dict Instance)
known_rows = some (("s-dc-7", idle_instance) ∷ [])

sweep_idle-IsJustified_example :
    ((view
        (sweep_idle runner session_claim known_rows
          (at 2000)
          before_sweep).1.world.k8s_state).sandbox
      ≡ (view cluster).sandbox)
    ⊎ ((i : IdleInput) × (wake : Option Time) × IsJustified runner fake_client-Contract
          session_claim known_rows
          (at 2000)
          before_sweep
          i
          wake
        × Suspends runner fake_client-Contract "s-dc-7" i.sandbox wake (view cluster) (
            view
              (sweep_idle runner session_claim known_rows
                (at 2000)
                before_sweep).1.world.k8s_state))
unfolding effective_idle_timeout effective_duration lookup
sweep_idle-IsJustified_example =
    sweep_idle-IsJustified runner fake_client-Contract session_claim known_rows (at 2000)
      before_sweep cluster-Sane (omega arith, omega arith)

abbrev idle_facts : IdleInput
idle_facts = record {
  sandbox = some (record {
    name = "s-dc-7";
    operating_mode = "Running";
    ready = true;
    ready_changed = at 0;
    suspended = false;
    service_fqdn = "";
    selector = "";
  });
  instance_seen = some idle_instance;
  idle_timeout = pos 900000000000;
  now = at 2000;
  agent_enabled = false;
  agent = none;
  quiet_since = zero_time;
}

decide_idle_iff_example : (decide_idle idle_facts ≡ true) ↔ IsIdle idle_facts
decide_idle_iff_example = decide_idle_iff idle_facts (omega arith, omega arith)

abbrev events : List Event
events =
    Event.observed "a" (some (record { active_agents = pos 0; active_sessions = pos 0 })) (at 3)
    ∷ Event.observed "b" none (at 3)
    ∷ Event.observed "a" (some (record { active_agents = pos 0; active_sessions = pos 0 })) (at 2)
    ∷ Event.observed "a" (some (record { active_agents = pos 1; active_sessions = pos 0 })) (at 1)
    ∷ []

clock_after-Explains_example :
    Explains (lookup "a" (entries (clock_after events))) (seen "a" events)
clock_after-Explains_example = clock_after-Explains events "a"

sweep_ttl-expires_example :
    (view (sweep_ttl runner session_claim (at 600) (world_at 600 cluster)).1.k8s_state).claim
      "s-dc-7"
    ≡ none
unfolding effective_ttl effective_duration parse_int parse_uint parse_digits lookup seconds wrap64
    ◌*ℤ◌ ◌+ℤ◌ decommission purge purged remove_claim invalidate_instances get_claim delete_claim
    add_session insert
sweep_ttl-expires_example =
    sweep_ttl-expires runner fake_client-Contract session_claim (at 600) (world_at 600 cluster) true
      "s-dc-7" cluster-Sane (omega arith, omega arith)
      (omega arith, ((λ e. ground arith), omega arith)) refl

abbrev woken_claim : Claim
woken_claim = record session_claim {
  annotations = (anno_wake_at, "1997-05-23T16:08:20Z") ∷ annotations;
}

abbrev sleeping_sandbox : Sandbox
sleeping_sandbox = record {
  name = "s-dc-7";
  operating_mode = "Suspended";
  ready = false;
  ready_changed = at 0;
  suspended = true;
  service_fqdn = "s-dc-7";
  selector = "";
}

sweep_wake-stamped_example :
    (d : Claim) × ((view asleep).claim "s-dc-7" ≡ some d)
    × IsWoken
        (manager_with accepting)
        fake_client-Contract
        d
        (view asleep)
        (view (sweep_wake runner woken_claim (at 500) (world_at 500 asleep)).1.k8s_state)
unfolding lookup sandbox get_sandbox add_session insert wake satisfy_wake_at clear_wake_at get_claim
    patch_sandbox_operating_mode patch_claim_annotations Rfc3339.format
sweep_wake-stamped_example =
    sweep_wake-stamped runner fake_client-Contract woken_claim (at 500) 63000000500000000007
      sleeping_sandbox (world_at 500 asleep) asleep-Sane (omega arith) refl refl refl (omega arith)
      refl

sweep-Spares_example :
    (view (sweep runner true before_sweep).1.world.k8s_state).claim "s-other"
    ≡ (view cluster).claim "s-other"
unfolding list_claims add_session insert keys lookup
sweep-Spares_example =
    sweep-Spares runner fake_client-Contract "s-other" true before_sweep cluster-Sane
      (λ claims listed c member named.
        let one : claims ≡ session_claim ∷ [] = ground arith in
        let same : c ≡ session_claim = Memᴰ.eq_of_singleton (subst (λ l. Memᴰ c l) one member) in
        let own : c.name ≡ "s-dc-7" = ap (λ x. x.name) same in
        let clash : ("s-dc-7" == "s-other") ≡ true =
          (eq_iff "s-dc-7" "s-other").1 (sym own ∙ named) in
        absurd (ground arith))

abbrev no_rows : Dict Instance
no_rows = []

update_iff_example :
    (r : Report) × (load (update (at 5) (session_claim ∷ []) (some no_rows) none) ≡ (some r, true))
    × ((contains r.claims_without_instances "s-dc-7" ≡ true)
        ↔ (Wants (session_claim ∷ []) "s-dc-7" × (lookup "s-dc-7" no_rows ≡ none)))
    × ((contains r.instances_without_claims "s-dc-7" ≡ true) ↔ (
        (is_some (lookup "s-dc-7" no_rows) ≡ true)
        × ¬ ((c : Claim) × Memᴰ c (session_claim ∷ []) × (c.name ≡ "s-dc-7"))))
update_iff_example = update_iff (at 5) (session_claim ∷ []) no_rows none "s-dc-7"
