-- ===== src/Sweeper/Suspend.antt =====
-- sweepIdle and pollAgent of sweeper/runner.go.
pub mod Observed
pub mod Facts
pub mod Laws
pub mod Progress
use hermes_cluster.Base.{
  String, Bool, true, false, not, ◌&&◌, ◌||◌, Option, none, some, List, [], ◌∷◌, map, ◌==◌,
  if◌then◌else◌,
}
use hermes_cluster.Base.Int.{pos, ltb_ℤ, leb_ℤ}
use hermes_cluster.Base.Text.{◌<>◌, codes, between}
use hermes_cluster.Base.Dict.{Dict, lookup}
use hermes_cluster.Base.Exec.{Exec, Result, ok, err, pure, attempt, get_state, ◌>>=◌, ◌>>◌}
use hermes_cluster.Clock.Rfc3339
use hermes_cluster.Clock.{Time, Duration, sub, is_zero, before, zero_time}
use hermes_cluster.Session.{mode_suspended, anno_connector, anno_wake_at}
use hermes_cluster.Session.Pattern.{Pattern, class, seq, plus, matches}
use hermes_cluster.K8s.{Claim, Sandbox, ExposureSpec}
use hermes_cluster.Connector.{Instance}
use hermes_cluster.Agent.{Client, Report}
use hermes_cluster.Lifecycle.{Manager, World, annotation, agent_client, on_k8s, on_agent, now}
use hermes_cluster.Lifecycle.Durations.{effective_ttl, effective_idle_timeout}
use hermes_cluster.Lifecycle.Read.{sandbox, instances}
use hermes_cluster.Lifecycle.Control.{clear_wake_at_patch, wake, decommission}
use hermes_cluster.Reconcile.{claim_names, update}
use hermes_cluster.Sweeper.{ExposureConfig, Runner, Sweeping, on_world}
use hermes_cluster.Sweeper.Idle.{IdleInput, is_running, decide_idle, decide_cron}
use hermes_cluster.Sweeper.Quiet.{track_quiet, prune_quiet}
use hermes_cluster.Sweeper.Exposure.{status_target}

-- the value of the wake-at annotation in a patch
abbrev pub stamp_patch : String → Dict (Option String)
stamp_patch value = (anno_wake_at, some value) ∷ []

module _ {KS CS AS : Type 0} (r : Runner KS CS AS) where
  -- pollAgent: any error reads as unknown
  unfoldable pub poll_agent : String → Exec (World KS CS AS) (Option Report)
  poll_agent target = do
    x ← attempt (on_agent ((agent_client r.manager).status target))
    pure (elim x [ ok report ↦ some report | err e ↦ none ])

  -- the observation of a running session; nothing is asked of another
  unfoldable pub observe : Claim → Option Sandbox → Exec (World KS CS AS) (Option Report)
  unfolding poll_agent status_target is_running
  observe claim none = pure none
  observe claim (some b) =
      if is_running b then poll_agent (status_target r claim (some b)) else pure none

  -- the call of trackQuiet
  unfoldable pub tracked : String → Option Report → Time → Exec (Sweeping KS CS AS) Time
  unfolding track_quiet
  tracked name report t s =
      let (since, quiet) = track_quiet name report t s.quiet_since in
      (ok since, record s { quiet_since = quiet })

  -- the input of the gate from the observation
  abbrev pub idle_input :
      Claim → Option (Instance) → Option Sandbox → Time → Bool → Option Report → Time → IdleInput
  idle_input claim x b t polled report since = record {
    sandbox = b;
    instance_seen = x;
    idle_timeout = effective_idle_timeout r.manager.defaults claim;
    now = t;
    agent_enabled = polled;
    agent = report;
    quiet_since = since;
  }

  unfoldable pub gather :
      Claim → Option Instance → Option Sandbox → Time → Exec (Sweeping KS CS AS) IdleInput
  unfolding observe tracked
  gather claim x b t =
      if (agent_client r.manager).enabled
      then (do
        report ← on_world (observe claim b)
        since ← tracked claim.name report t
        pure (idle_input claim x b t true report since))
      else pure (idle_input claim x b t false none zero_time)

  -- the cron gate: `none` defers the suspend
  unfoldable pub cron_gate :
      Claim → Option Sandbox → Time → Exec (World KS CS AS) (Option (Option Time))
  unfolding status_target decide_cron
  cron_gate claim b t =
      if (agent_client r.manager).enabled && (agent_client r.manager).cron_configured
      then (do
        x ← attempt (on_agent ((agent_client r.manager).next_cron_fire (status_target r claim b)))
        pure (elim x [
          | err e ↦ none
          | ok fire ↦ decide_cron fire t r.idle_horizon r.wake_boot_margin
        ]))
      else pure (some none)

  -- the wake-at annotation, if there is one to write; the answer is whether to go on
  unfoldable pub stamp : Claim → Option Time → Exec (World KS CS AS) Bool
  stamp claim none = pure true
  stamp claim (some t) = do
    x ←
        attempt (
          on_k8s
            (r.manager.k8s.patch_claim_annotations claim.name (stamp_patch (Rfc3339.format t))))
    pure (elim x [ ok _ ↦ true | err e ↦ false ])

  unfoldable pub suspend_sandbox : Option Sandbox → Exec (World KS CS AS) Unit
  suspend_sandbox none = pure tt
  suspend_sandbox (some b) = do
    attempt (on_k8s (r.manager.k8s.patch_sandbox_operating_mode b.name mode_suspended))
    pure tt

  -- what follows once the cron gate has answered
  unfoldable pub suspend_from :
      Claim → Option Sandbox → Option (Option Time) → Exec (World KS CS AS) Unit
  unfolding stamp suspend_sandbox
  suspend_from claim b none = pure tt
  suspend_from claim b (some wake_at) = do
    stamped ← stamp claim wake_at
    if stamped then suspend_sandbox b else pure tt

  unfoldable pub suspend : Claim → Option Sandbox → Time → Exec (World KS CS AS) Unit
  unfolding cron_gate suspend_from
  suspend claim b t = do gate ← cron_gate claim b t; suspend_from claim b gate

  unfoldable pub sweep_known : Claim → Dict Instance → Time → Exec (Sweeping KS CS AS) Unit
  unfolding gather suspend
  sweep_known claim known t = do
    b ← on_world (sandbox r.manager claim)
    i ← gather claim (lookup claim.name known) b t
    if decide_idle i then on_world (suspend claim b t) else pure tt

  unfoldable pub sweep_idle : Claim → Option (Dict Instance) → Time → Exec (Sweeping KS CS AS) Unit
  unfolding sweep_known
  sweep_idle claim none t = pure tt
  sweep_idle claim (some known) t =
      if annotation anno_connector claim == "true" then sweep_known claim known t else pure tt
