-- ===== src/Sweeper/Sweep/Frame.antt =====
-- What the sweep of one claim leaves alone of the others (sweeper/runner.go).

use hermes_cluster.Base.{String, ◌≡◌, refl, false, Option, none, some, ◌==◌, if◌then◌else◌, arith}
use hermes_cluster.Base.Dict.{Dict, lookup}
use hermes_cluster.Base.Exec.{pure, ◌>>=◌, ◌>>◌}
use hermes_cluster.Base.Frame.{Preorder, Within, pure-Within, bind-Within, if-Within}
use hermes_cluster.Clock.Rfc3339
use hermes_cluster.Clock.{Time}
use hermes_cluster.Session.{anno_connector, mode_suspended}
use hermes_cluster.K8s.{Claim, Sandbox}
use hermes_cluster.K8s.Contract.{View, Contract}
use hermes_cluster.Connector.{Instance}
use hermes_cluster.Lifecycle.{annotation}
use hermes_cluster.Lifecycle.Read.{sandbox}
use hermes_cluster.Lifecycle.Frame.{
  Leaves, Leaves-Preorder, sandbox-Leaves, ensure_exposure-Leaves, patch_mode-Leaves,
  patch_annotations-Leaves,
}
use hermes_cluster.Sweeper.{ExposureConfig, Runner, Sweeping, on_world}
use hermes_cluster.Sweeper.Idle.{decide_idle}
use hermes_cluster.Sweeper.Exposure.{exposure_spec, sweep_exposure, expose}
use hermes_cluster.Sweeper.Timers.{sweep_wake, sweep_ttl}
use hermes_cluster.Sweeper.Timers.Laws.{sweep_wake-Leaves, sweep_ttl-Leaves}
use hermes_cluster.Sweeper.Suspend.{
  stamp_patch, stamp, suspend_sandbox, suspend_from, cron_gate, suspend, gather, sweep_known,
  sweep_idle,
}
use hermes_cluster.Sweeper.Suspend.Facts.{gather-input, cron_gate-decides}
use hermes_cluster.Sweeper.Sweep.{sweep_live}

module _ {KS CS AS : Type 0} (r : Runner KS CS AS) {view : KS → View} {Sane : KS → Type 0}
    (k : Contract r.manager.k8s view Sane) (j : String) where
  -- what a sweep keeps of the claim `j`
  abbrev pub Spares : Sweeping KS CS AS → Sweeping KS CS AS → Type 0
  Spares s t = Leaves r.manager k j s.world t.world

  abbrev Order : Preorder (Leaves r.manager k j)
  Order = Leaves-Preorder r.manager k j

  pub Spares-Preorder : Preorder Spares
  Spares-Preorder = record {
    same = λ s. Order.same s.world;
    trans = λ s t u f g. Order.trans s.world t.world u.world f g;
  }

  sweep_exposure-Leaves :
      (e : ExposureConfig) (c : Claim) (b : Option Sandbox)
      → Within (Leaves r.manager k j) (sweep_exposure r e c b)
  unfolding sweep_exposure
  sweep_exposure-Leaves e c none w s = (s, refl)
  sweep_exposure-Leaves e c (some b) w s =
      let kept = ensure_exposure-Leaves r.manager k j (exposure_spec r e c b) w s in ground arith

  expose-Leaves :
      (e : Option ExposureConfig) (c : Claim) → Within (Leaves r.manager k j) (expose r e c)
  unfolding expose
  expose-Leaves none c = pure-Within Order tt
  expose-Leaves (some e) c =
      bind-Within Order (sandbox r.manager c) (sweep_exposure r e c)
        (sandbox-Leaves r.manager k j c) (sweep_exposure-Leaves e c)

  stamp-Leaves :
      (c : Claim) (wake : Option Time)
      → (c.name == j) ≡ false
      → Within (Leaves r.manager k j) (stamp r c wake)
  unfolding stamp
  stamp-Leaves c none d w s = (s, refl)
  stamp-Leaves c (some t) d w s =
      patch_annotations-Leaves r.manager k j c.name (stamp_patch (Rfc3339.format t)) d w s

  suspend_sandbox-Leaves :
      (b : Option Sandbox) → Within (Leaves r.manager k j) (suspend_sandbox r b)
  unfolding suspend_sandbox
  suspend_sandbox-Leaves none w s = (s, refl)
  suspend_sandbox-Leaves (some b) w s = patch_mode-Leaves r.manager k j b.name mode_suspended w s

  suspend_from-Leaves :
      (c : Claim) (b : Option Sandbox) (g : Option (Option Time))
      → (c.name == j) ≡ false
      → Within (Leaves r.manager k j) (suspend_from r c b g)
  unfolding suspend_from
  suspend_from-Leaves c b none d = pure-Within Order tt
  suspend_from-Leaves c b (some wake) d =
      bind-Within Order (stamp r c wake) (λ go. if go then suspend_sandbox r b else pure tt)
        (stamp-Leaves c wake d)
        (λ go.
          if-Within Order go (suspend_sandbox r b) (pure tt) (suspend_sandbox-Leaves b)
            (pure-Within Order tt))

  suspend-Leaves :
      (c : Claim) (b : Option Sandbox) (t : Time)
      → (c.name == j) ≡ false
      → Within (Leaves r.manager k j) (suspend r c b t)
  unfolding suspend
  suspend-Leaves c b t d =
      bind-Within Order (cron_gate r c b t) (suspend_from r c b)
        (λ w s. rw (cron_gate-decides r c b t w).0 (s, refl)) (λ g. suspend_from-Leaves c b g d)

  sweep_known-Spares :
      (c : Claim) (known : Dict Instance) (t : Time)
      → (c.name == j) ≡ false
      → Within Spares (sweep_known r c known t)
  unfolding sweep_known
  sweep_known-Spares c known t d =
      bind-Within Spares-Preorder (on_world (sandbox r.manager c))
        (λ b. do
          i ← gather r c (lookup c.name known) b t
          if decide_idle i then on_world (suspend r c b t) else pure tt)
        (λ s. sandbox-Leaves r.manager k j c s.world)
        (λ b.
          bind-Within Spares-Preorder (gather r c (lookup c.name known) b t)
            (λ i. if decide_idle i then on_world (suspend r c b t) else pure tt)
            (λ s h. rw (gather-input r c (lookup c.name known) b t s).0 (h, refl))
            (λ i.
              if-Within Spares-Preorder (decide_idle i) (on_world (suspend r c b t)) (pure tt)
                (λ s. suspend-Leaves c b t d s.world) (pure-Within Spares-Preorder tt)))

  sweep_idle-Spares :
      (c : Claim) (known : Option (Dict Instance)) (t : Time)
      → (c.name == j) ≡ false
      → Within Spares (sweep_idle r c known t)
  unfolding sweep_idle
  sweep_idle-Spares c none t d = pure-Within Spares-Preorder tt
  sweep_idle-Spares c (some known) t d =
      if-Within Spares-Preorder (annotation anno_connector c == "true") (sweep_known r c known t)
        (pure tt) (sweep_known-Spares c known t d) (pure-Within Spares-Preorder tt)

  pub sweep_live-Spares :
      (known : Option (Dict Instance)) (t : Time) (c : Claim)
      → (c.name == j) ≡ false
      → Within Spares (sweep_live r known t c)
  unfolding sweep_live
  sweep_live-Spares known t c d =
      bind-Within Spares-Preorder (on_world (sweep_wake r c t))
        (λ _. do
          on_world (sweep_ttl r c t)
          sweep_idle r c known t
          on_world (expose r r.exposure c))
        (λ s. sweep_wake-Leaves r k j c t d s.world)
        (λ _.
          bind-Within Spares-Preorder (on_world (sweep_ttl r c t))
            (λ _. do sweep_idle r c known t; on_world (expose r r.exposure c))
            (λ s. sweep_ttl-Leaves r k j c t d s.world)
            (λ _.
              bind-Within Spares-Preorder (sweep_idle r c known t)
                (λ _. on_world (expose r r.exposure c)) (sweep_idle-Spares c known t d)
                (λ _ s. expose-Leaves r.exposure c s.world)))
