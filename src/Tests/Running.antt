-- ===== src/Tests/Running.antt =====
-- Runs of the theorems on the loop of sweeps and on the suspend of an idle session.
use hermes_cluster.Base.{List, Bool, ◌≡◌, refl, true, false, none, some, [], ◌∷◌, ◌++◌, arith}
use hermes_cluster.Base.Int.{pos, ◌+ℤ◌, ◌-ℤ◌, ◌≤ℤ◌, ◌<ℤ◌, wrap64, saturate64, ◌*ℤ◌}
use hermes_cluster.Base.Dict.{lookup, insert}
use hermes_cluster.Base.Text.{length}
use hermes_cluster.Base.Exec.{ok}
use hermes_cluster.Clock.{sub, unix, zero_time}
use hermes_cluster.Session.{mode_suspended, derive}
use hermes_cluster.K8s.{Sandbox}
use hermes_cluster.K8s.Fake.{Fake, add_session, get_sandbox, patch_sandbox_operating_mode}
use hermes_cluster.K8s.Fake.Reads.{view}
use hermes_cluster.K8s.Fake.Sound.{fake_client-Contract}
use hermes_cluster.Agent
use hermes_cluster.Lifecycle.Durations.{effective_duration, effective_idle_timeout}
use hermes_cluster.Sweeper.{Runner, Sweeping}
use hermes_cluster.Sweeper.Idle.{IdleInput, decide_idle}
use hermes_cluster.Sweeper.Idle.Laws.{decide_idle_iff}
use hermes_cluster.Sweeper.Suspend.{gather, sweep_idle}
use hermes_cluster.Sweeper.Suspend.Progress.{sweep_idle-suspends}
use hermes_cluster.Sweeper.Run.{quotient, jitter_range, pause, Turn, run}
use hermes_cluster.Sweeper.Run.Laws.{pause_bounds, run-returns, sweeps, AreTenths}
use hermes_cluster.Tests.{
  at, cluster, cluster-Sane, session_claim, accepting, idle_instance, manager_with, world_at,
}

-- without polling
abbrev runner : Runner Fake Unit Unit
runner = record {
  manager = record (manager_with accepting) { agent = none };
  interval = pos 30000000000;
  reconciles = true;
  idle_horizon = pos 300000000000;
  wake_boot_margin = pos 120000000000;
  exposure = none;
}

abbrev before_sweep : Sweeping Fake Unit Unit
before_sweep = record { world = world_at 2000 cluster; quiet_since = none; report = none }

abbrev first : Turn
first = record { draw = pos 1000000000; cancelled = false }

abbrev last : Turn
last = record { draw = pos 7; cancelled = true }

pause_bounds_example :
    (pos 0 <ℤ jitter_range (pos 30000000000))
    × (pause (pos 30000000000) (pos 1000000000)
        ≡ (pos 30000000000 -ℤ quotient (pos 30000000000) 20) +ℤ pos 1000000000)
    × (pos 30000000000 -ℤ quotient (pos 30000000000) 20 ≤ℤ pause (pos 30000000000) (pos 1000000000))
    × (pause (pos 30000000000) (pos 1000000000) ≤ℤ pos 30000000000 +ℤ quotient (pos 30000000000) 20)
unfolding jitter_range quotient ◌+ℤ◌
pause_bounds_example =
    pause_bounds (pos 30000000000) (pos 1000000000) (omega arith, omega arith) (omega arith)
      (omega arith) (omega arith)

run-returns_example :
    (reports : List Bool) × (run runner ((first ∷ []) ++ (last ∷ [])) before_sweep ≡ (
      ok (record { waits = pos 29500000000 ∷ pos 28500000007 ∷ []; returned = true }),
      sweeps runner reports before_sweep,
    ))
    × (length reports ≡ 2)
    × AreTenths reports
unfolding ◌+ℤ◌
run-returns_example =
    run-returns runner 30000000000 (first ∷ []) [] last before_sweep refl (omega arith)
      (omega arith) (omega arith, omega arith, (omega arith, omega arith, tt)) (refl, tt) refl

abbrev held : Sandbox
held = record {
  name = "s-dc-7";
  operating_mode = "Running";
  ready = true;
  ready_changed = at 0;
  suspended = false;
  service_fqdn = "s-dc-7";
  selector = "";
}

abbrev facts : IdleInput
facts = record {
  sandbox = some held;
  instance_seen = some idle_instance;
  idle_timeout = pos 900000000000;
  now = at 2000;
  agent_enabled = false;
  agent = none;
  quiet_since = zero_time;
}

facts_idle : decide_idle facts ≡ true
unfolding decide_idle derive sub unix wrap64 saturate64 ◌*ℤ◌ ◌+ℤ◌ ◌-ℤ◌
facts_idle = refl

sweep_idle-suspends_example :
    (d : Sandbox) × ((view
          (sweep_idle runner session_claim
            (some (("s-dc-7", idle_instance) ∷ []))
            (at 2000)
            before_sweep).1.world.k8s_state).sandbox
        "s-dc-7"
      ≡ some d)
    × (d.operating_mode ≡ mode_suspended)
unfolding effective_idle_timeout effective_duration lookup insert add_session get_sandbox gather
    Agent.disabled_client patch_sandbox_operating_mode
sweep_idle-suspends_example =
    sweep_idle-suspends runner fake_client-Contract session_claim (("s-dc-7", idle_instance) ∷ [])
      (at 2000) before_sweep held facts cluster-Sane (omega arith, omega arith) refl refl refl
      ((decide_idle_iff facts (omega arith, omega arith)).0 facts_idle) refl refl
