-- ===== src/Tests/Control.antt =====
-- Runs of the theorems on Create, Get, Wake, Restart and Decommission.
use hermes_cluster.Base.{◌∷◌, ◌≡◌, refl, true, none, some}
use hermes_cluster.Base.Dict.{lookup, insert, erase}
use hermes_cluster.Base.Errors.{wrap, sentinel, errors_is, throttled}
use hermes_cluster.Base.Exec.{err, ok}
use hermes_cluster.K8s.{Claim, Sandbox}
use hermes_cluster.K8s.Fake.{
  add_session, get_claim, delete_claim, patch_claim_annotations, patch_sandbox_operating_mode,
}
use hermes_cluster.K8s.Fake.Reads.{view}
use hermes_cluster.K8s.Fake.Sound.{fake_client-Contract}
use hermes_cluster.Lifecycle.{invalidate_instances}
use hermes_cluster.Lifecycle.Control.{
  purged, purge, remove_claim, satisfy_wake_at, clear_wake_at, wake, restart, decommission,
}
use hermes_cluster.Lifecycle.Control.Laws.{decommission-gone, decommission-retains}
use hermes_cluster.Lifecycle.Control.Waking.{IsWoken, wake-IsWoken, restart-running, after_suspend}
use hermes_cluster.Session.{mode_running, anno_wake_at}
use hermes_cluster.Tests.{
  cluster, cluster-Sane, session_claim, accepting, refusing, asleep, asleep-Sane, annotations,
  manager_with, world_at,
}

decommission-gone_example :
    (view (decommission (manager_with accepting) "s-dc-7" (world_at 0 cluster)).1.k8s_state).claim
      "s-dc-7"
    ≡ none
unfolding decommission purge purged remove_claim invalidate_instances get_claim delete_claim
    add_session insert lookup erase errors_is
decommission-gone_example =
    decommission-gone (manager_with accepting) fake_client-Contract "s-dc-7" "s-dc-7"
      (world_at 0 cluster) true cluster-Sane refl

decommission-retains_example :
    ((decommission (manager_with refusing) "s-dc-7" (world_at 0 cluster)).0
      ≡ err (wrap "connector deprovision failed (claim retained for retry)" (sentinel throttled)))
    × (view (decommission (manager_with refusing) "s-dc-7" (world_at 0 cluster)).1.k8s_state
        ≡ view cluster)
unfolding get_claim add_session insert lookup errors_is
decommission-retains_example =
    decommission-retains (manager_with refusing) fake_client-Contract "s-dc-7" (world_at 0 cluster)
      session_claim (sentinel throttled) cluster-Sane refl refl refl refl

wake-IsWoken_example :
    (c : Claim) × ((view asleep).claim "s-dc-7" ≡ some c)
    × IsWoken
        (manager_with accepting)
        fake_client-Contract
        c
        (view asleep)
        (view (wake (manager_with accepting) "s-dc-7" (world_at 0 asleep)).1.k8s_state)
unfolding wake satisfy_wake_at clear_wake_at get_claim patch_sandbox_operating_mode
    patch_claim_annotations add_session insert lookup
wake-IsWoken_example =
    wake-IsWoken (manager_with accepting) fake_client-Contract "s-dc-7" (world_at 0 asleep)
      asleep-Sane refl

abbrev sleeping_claim : Claim
sleeping_claim = record session_claim { annotations = (anno_wake_at, "at 500") ∷ annotations }

restart-running_example :
    (b : Sandbox) × ((restart (manager_with accepting) "s-dc-7" (world_at 0 asleep)).0 ≡ ok tt)
    × ((restart (manager_with accepting) "s-dc-7" (world_at 0 asleep)).1.k8s_state
        ≡ (patch_sandbox_operating_mode "s-dc-7" mode_running (
            after_suspend
              (manager_with accepting)
              fake_client-Contract
              "s-dc-7"
              "s-dc-7"
              asleep)).1)
    × ((view (restart (manager_with accepting) "s-dc-7" (world_at 0 asleep)).1.k8s_state).sandbox
          "s-dc-7"
        ≡ some b)
    × (b.operating_mode ≡ mode_running)
    × ((view (restart (manager_with accepting) "s-dc-7" (world_at 0 asleep)).1.k8s_state).claim
        ≡ (view asleep).claim)
unfolding get_claim patch_sandbox_operating_mode add_session insert lookup
restart-running_example =
    restart-running (manager_with accepting) fake_client-Contract "s-dc-7" sleeping_claim
      (world_at 0 asleep) asleep-Sane refl refl
