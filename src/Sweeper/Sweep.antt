-- ===== src/Sweeper/Sweep.antt =====
-- sweep of sweeper/runner.go: the loop over the claims.
pub mod Frame
pub mod Laws
use hermes_cluster.Base.{
  String, Bool, true, false, not, ◌&&◌, ◌||◌, Option, none, some, List, [], ◌∷◌, map, ◌==◌,
  if◌then◌else◌,
}
use hermes_cluster.Base.Int.{pos, ltb_ℤ, leb_ℤ}
use hermes_cluster.Base.Text.{◌<>◌, codes, between}
use hermes_cluster.Base.Dict.{Dict, lookup}
use hermes_cluster.Base.Exec.{Exec, Result, ok, err, pure, attempt, get_state, ◌>>=◌, ◌>>◌}
use hermes_cluster.Clock.{Time, Duration, sub, is_zero, before, zero_time}
use hermes_cluster.Session.{mode_suspended, anno_connector, anno_wake_at}
use hermes_cluster.Session.Pattern.{Pattern, class, seq, plus, matches}
use hermes_cluster.K8s.{Claim, Sandbox, ExposureSpec}
use hermes_cluster.Connector.{Instance}
use hermes_cluster.Agent.{Client, Report}
use hermes_cluster.Lifecycle.{Manager, World, annotation, agent_client, on_k8s, on_agent, now}
use hermes_cluster.Lifecycle.Durations.{effective_ttl, effective_idle_timeout}
use hermes_cluster.Lifecycle.Read.{sandbox, instances}
use hermes_cluster.Lifecycle.Control.{clear_wake_at_patch, wake, decommission}
use hermes_cluster.Reconcile.{claim_names, update}
use hermes_cluster.Sweeper.{ExposureConfig, Runner, Sweeping, on_world}
use hermes_cluster.Sweeper.Idle.{IdleInput, is_running, decide_idle, decide_cron}
use hermes_cluster.Sweeper.Quiet.{track_quiet, prune_quiet}
use hermes_cluster.Sweeper.Exposure.{expose}
use hermes_cluster.Sweeper.Timers.{sweep_wake, sweep_ttl}
use hermes_cluster.Sweeper.Suspend.{sweep_idle}

module _ {KS CS AS : Type 0} (r : Runner KS CS AS) where
  -- the body of the loop over the claims, for a claim that is not terminating
  unfoldable pub sweep_live : Option (Dict Instance) → Time → Claim → Exec (Sweeping KS CS AS) Unit
  unfolding sweep_wake sweep_ttl sweep_idle expose
  sweep_live known t claim = do
    on_world (sweep_wake r claim t)
    on_world (sweep_ttl r claim t)
    sweep_idle r claim known t
    on_world (expose r r.exposure claim)

  unfoldable pub sweep_claim : Option (Dict Instance) → Time → Claim → Exec (Sweeping KS CS AS) Unit
  unfolding sweep_live
  sweep_claim known t claim = if claim.terminating then pure tt else sweep_live known t claim

  unfoldable pub sweep_claims :
      Option (Dict Instance) → Time → List Claim → Exec (Sweeping KS CS AS) Unit
  unfolding sweep_claim
  sweep_claims known t [] = pure tt
  sweep_claims known t (claim ∷ claims) = do sweep_claim known t claim; sweep_claims known t claims

  unfoldable pub prune : List Claim → Exec (Sweeping KS CS AS) Unit
  unfolding prune_quiet
  prune claims s =
      (ok tt, record s { quiet_since = prune_quiet (claim_names claims) s.quiet_since })

  -- r.Reconcile.Update, which reads the clock only if the instances are known
  unfoldable pub reconcile_with :
      List Claim → Option (Dict Instance) → Exec (Sweeping KS CS AS) Unit
  unfolding update
  reconcile_with claims none = pure tt
  reconcile_with claims (some known) = do
    t ← on_world now
    s ← get_state
    λ s'. (ok tt, record s' { report = update t claims (some known) s.report })

  -- what follows the loop
  unfoldable pub conclude :
      Bool → List Claim → Option (Dict Instance) → Exec (Sweeping KS CS AS) Unit
  unfolding prune reconcile_with
  conclude do_reconcile claims known = do
    prune claims
    if do_reconcile && r.reconciles && r.manager.connector.enabled
        then reconcile_with claims known
        else pure tt

  -- what follows once the claims are listed
  unfoldable pub sweep_listed : Bool → List Claim → Exec (Sweeping KS CS AS) Unit
  unfolding sweep_claims conclude
  sweep_listed do_reconcile claims = do
    known ← on_world (instances r.manager)
    t ← on_world now
    sweep_claims known t claims
    conclude do_reconcile claims known

  unfoldable pub sweep : Bool → Exec (Sweeping KS CS AS) Unit
  unfolding sweep_listed
  sweep do_reconcile = do
    x ← attempt (on_world (on_k8s r.manager.k8s.list_claims))
    elim x [ err e ↦ pure tt | ok claims ↦ sweep_listed do_reconcile claims ]
