-- ===== src/Sweeper/Timers.antt =====
-- sweepWake, clearWakeAt and sweepTTL of sweeper/runner.go. A method that returns nothing is an
-- operation that always answers `ok tt`.
pub mod Laws
pub mod Stamped
use hermes_cluster.Base.{
  String, Bool, true, false, not, ◌&&◌, ◌||◌, Option, none, some, List, [], ◌∷◌, map, ◌==◌,
  if◌then◌else◌,
}
use hermes_cluster.Base.Int.{pos, ltb_ℤ, leb_ℤ}
use hermes_cluster.Base.Text.{◌<>◌, codes, between}
use hermes_cluster.Base.Dict.{Dict, lookup}
use hermes_cluster.Base.Exec.{Exec, Result, ok, err, pure, attempt, get_state, ◌>>=◌, ◌>>◌}
use hermes_cluster.Clock.Rfc3339
use hermes_cluster.Clock.{Time, Duration, sub, is_zero, before, zero_time}
use hermes_cluster.Session.{mode_suspended, anno_connector, anno_wake_at}
use hermes_cluster.Session.Pattern.{Pattern, class, seq, plus, matches}
use hermes_cluster.K8s.{Claim, Sandbox, ExposureSpec}
use hermes_cluster.Connector.{Instance}
use hermes_cluster.Agent.{Client, Report}
use hermes_cluster.Lifecycle.{Manager, World, annotation, agent_client, on_k8s, on_agent, now}
use hermes_cluster.Lifecycle.Durations.{effective_ttl, effective_idle_timeout}
use hermes_cluster.Lifecycle.Read.{sandbox, instances}
use hermes_cluster.Lifecycle.Control.{clear_wake_at_patch, wake, decommission}
use hermes_cluster.Reconcile.{claim_names, update}
use hermes_cluster.Sweeper.{ExposureConfig, Runner, Sweeping, on_world}
use hermes_cluster.Sweeper.Idle.{IdleInput, is_running, decide_idle, decide_cron}
use hermes_cluster.Sweeper.Quiet.{track_quiet, prune_quiet}

-- now.Sub(created) < ttl, or no ttl, or no creation time
abbrev pub is_alive : Duration → Time → Time → Bool
is_alive ttl created now = leb_ℤ ttl (pos 0) || is_zero created || ltb_ℤ (sub now created) ttl

module _ {KS CS AS : Type 0} (r : Runner KS CS AS) where
  -- clearWakeAt
  unfoldable pub clear_wake_at : String → Exec (World KS CS AS) Unit
  clear_wake_at name = do
    attempt (on_k8s (r.manager.k8s.patch_claim_annotations name clear_wake_at_patch))
    pure tt

  -- sweepWake once the sandbox is read
  unfoldable pub sweep_wake_bound :
      Claim → Time → Time → Option Sandbox → Exec (World KS CS AS) Unit
  unfolding clear_wake_at
  sweep_wake_bound claim t wake_at none = pure tt
  sweep_wake_bound claim t wake_at (some b) =
      if not b.suspended && not (b.operating_mode == mode_suspended)
      then clear_wake_at claim.name
      else if before t wake_at
      then pure tt
      else (do attempt (wake r.manager claim.name); pure tt)

  -- sweepWake once the annotation is read: `none` is a malformed value
  unfoldable pub sweep_wake_at : Claim → Time → Option Time → Exec (World KS CS AS) Unit
  unfolding sweep_wake_bound clear_wake_at
  sweep_wake_at claim t none = clear_wake_at claim.name
  sweep_wake_at claim t (some wake_at) = do
    b ← sandbox r.manager claim
    sweep_wake_bound claim t wake_at b

  unfoldable pub sweep_wake : Claim → Time → Exec (World KS CS AS) Unit
  unfolding sweep_wake_at
  sweep_wake claim t =
      if annotation anno_wake_at claim == ""
      then pure tt
      else sweep_wake_at claim t (Rfc3339.parse (annotation anno_wake_at claim))

  unfoldable pub sweep_ttl : Claim → Time → Exec (World KS CS AS) Unit
  sweep_ttl claim t =
      if is_alive (effective_ttl r.manager.defaults claim) claim.created_at t
      then pure tt
      else (do attempt (decommission r.manager claim.name); pure tt)
