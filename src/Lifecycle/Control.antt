-- ===== src/Lifecycle/Control.antt =====
-- Wake, Restart and Decommission of lifecycle/manager.go.
pub mod Laws
pub mod Waking
pub mod Unmanaged
use hermes_cluster.Base.{String, Bool, true, false, Option, none, [], ◌∷◌, ◌==◌, if◌then◌else◌}
use hermes_cluster.Base.Dict.{Dict}
use hermes_cluster.Base.Errors.{wrap, errors_is, not_found, no_instance}
use hermes_cluster.Base.Exec.{Exec, Result, ok, err, pure, raise, attempt, ◌>>=◌, ◌>>◌}
use hermes_cluster.Session.{mode_running, mode_suspended, anno_wake_at}
use hermes_cluster.K8s.{Claim}
use hermes_cluster.Lifecycle.{
  Manager, World, annotation, sandbox_name_of, on_k8s, on_connector, invalidate_instances,
}
use hermes_cluster.Lifecycle.Read.{uses_connector}

-- the patch that removes the wake-at annotation
abbrev pub clear_wake_at_patch : Dict (Option String)
clear_wake_at_patch = (anno_wake_at, none) ∷ []

module _ {KS CS AS : Type 0} (m : Manager KS CS AS) where
  -- best effort: an error is only logged
  unfoldable pub clear_wake_at : String → Exec (World KS CS AS) Unit
  clear_wake_at name = do
    attempt (on_k8s (m.k8s.patch_claim_annotations name clear_wake_at_patch))
    pure tt

  -- a wake satisfies a pending scheduled wake
  unfoldable pub satisfy_wake_at : Claim → Exec (World KS CS AS) Unit
  unfolding clear_wake_at
  satisfy_wake_at claim =
      if annotation anno_wake_at claim == "" then pure tt else clear_wake_at claim.name

  unfoldable pub wake : String → Exec (World KS CS AS) Unit
  wake id = do
    claim ← on_k8s (m.k8s.get_claim id)
    on_k8s (m.k8s.patch_sandbox_operating_mode (sandbox_name_of claim) mode_running)
    satisfy_wake_at claim

  -- the error of the suspend half is dropped
  unfoldable pub restart : String → Exec (World KS CS AS) Unit
  restart id = do
    claim ← on_k8s (m.k8s.get_claim id)
    attempt (on_k8s (m.k8s.patch_sandbox_operating_mode (sandbox_name_of claim) mode_suspended))
    on_k8s (m.k8s.patch_sandbox_operating_mode (sandbox_name_of claim) mode_running)

  -- what an answer of DeleteInstance leads to: `deprovisioned`, or the end
  unfoldable pub purged : Result (Unit {0}) → Exec (World KS CS AS) Bool
  unfolding invalidate_instances
  purged (ok _) = do invalidate_instances; pure true
  purged (err e) =
      if errors_is e no_instance
      then pure false
      else raise (wrap "connector deprovision failed (claim retained for retry)" e)

  unfoldable pub purge : Claim → String → Exec (World KS CS AS) Bool
  unfolding purged
  purge claim id =
      if uses_connector m claim
      then (do r ← attempt (on_connector (m.connector.delete_instance id)); purged r)
      else pure false

  -- a claim that is already gone is as good as deleted
  unfoldable pub remove_claim : String → Exec (World KS CS AS) Unit
  remove_claim id = do
    r ← attempt (on_k8s (m.k8s.delete_claim id))
    elim r [ ok _ ↦ pure tt | err e ↦ if errors_is e not_found then pure tt else raise e ]

  -- the flag is whether the connector's instance was removed by this call; beside an error no
  -- caller reads it, and it is left out
  unfoldable pub decommission : String → Exec (World KS CS AS) Bool
  decommission id = do
    claim ← on_k8s (m.k8s.get_claim id)
    deprovisioned ← purge claim id
    remove_claim id
    pure deprovisioned
