-- ===== src/Sweeper/Suspend/Progress.antt =====
-- An idle session is suspended (sweeper/runner.go), for any client that keeps the contract.
use hermes_cluster.Base.{◌≡◌, refl, ap, ◌∙◌, true, false, some, eq_iff}
use hermes_cluster.Base.Int.{IsInt64}
use hermes_cluster.Base.Dict.{Dict, lookup}
use hermes_cluster.Base.Exec.{ok, continue}
use hermes_cluster.Clock.{Time}
use hermes_cluster.Session.{anno_connector, mode_suspended}
use hermes_cluster.K8s.{Claim, Sandbox}
use hermes_cluster.K8s.Contract.{View, Contract}
use hermes_cluster.Connector.{Instance}
use hermes_cluster.Lifecycle.{World, annotation, sandbox_name_of}
use hermes_cluster.Lifecycle.Read.{sandbox}
use hermes_cluster.Sweeper.{Runner, Sweeping}
use hermes_cluster.Sweeper.Idle.{IdleInput, decide_idle}
use hermes_cluster.Sweeper.Idle.Laws.{IsIdle, decide_idle_iff}
use hermes_cluster.Sweeper.Suspend.{
  gather, cron_gate, stamp, suspend_sandbox, suspend_from, suspend, sweep_known, sweep_idle,
}
use hermes_cluster.Sweeper.Suspend.Facts.{reads_cron, gather-input}

module _ {KS CS AS : Type 0} (r : Runner KS CS AS) where
  -- the state after the read of a session's sandbox
  abbrev pub after_sandbox : Claim → Sweeping KS CS AS → Sweeping KS CS AS
  after_sandbox c s = record s {
    world = record (s.world) {
      k8s_state = (r.manager.k8s.get_sandbox (sandbox_name_of c) s.world.k8s_state).1;
    };
  }

  -- With no schedule to read and nothing to stamp, the suspend is one write.
  suspend-writes :
      (c : Claim) (b : Sandbox) (t : Time) (w : World KS CS AS)
      → reads_cron r ≡ false
      → (suspend r c (some b) t w).1.k8s_state
        ≡ (r.manager.k8s.patch_sandbox_operating_mode b.name mode_suspended w.k8s_state).1
  unfolding suspend cron_gate suspend_from stamp suspend_sandbox
  suspend-writes c b t w off = rw off refl

  sweep_known-suspends :
      (c : Claim) (known : Dict Instance) (t : Time) (s : Sweeping KS CS AS) (b : Sandbox)
      (i : IdleInput)
      → (r.manager.k8s.get_sandbox (sandbox_name_of c) s.world.k8s_state).0 ≡ ok b
      → (gather r c (lookup c.name known) (some b) t (after_sandbox c s)).0 ≡ ok i
      → decide_idle i ≡ true
      → (sweep_known r c known t s).1.world
        ≡ (suspend r c
            (some b)
            t
            (gather r c (lookup c.name known) (some b) t (after_sandbox c s)).1.world).1
  unfolding sweep_known sandbox
  sweep_known-suspends c known t s b i held input idle = rw (held, continue, input, idle) refl

module _ {KS CS AS : Type 0} (r : Runner KS CS AS) {view : KS → View} {Sane : KS → Type 0}
    (k : Contract r.manager.k8s view Sane) where
  -- A session that the facts of this sweep show to be idle is suspended, where no schedule is read
  -- and the cluster takes the write: the session wants the connector and its instances are known,
  -- its sandbox was read, every guard of the gate holds of what was gathered, and afterwards that
  -- sandbox is in operating mode Suspended.
  pub sweep_idle-suspends :
      (c : Claim) (known : Dict Instance) (t : Time) (s : Sweeping KS CS AS) (b : Sandbox)
      (i : IdleInput)
      → Sane s.world.k8s_state
      → IsInt64 i.idle_timeout
      → annotation anno_connector c ≡ "true"
      → (r.manager.k8s.get_sandbox (sandbox_name_of c) s.world.k8s_state).0 ≡ ok b
      → (gather r c (lookup c.name known) (some b) t (after_sandbox r c s)).0 ≡ ok i
      → IsIdle i
      → reads_cron r ≡ false
      → (r.manager.k8s.patch_sandbox_operating_mode b.name mode_suspended
          (after_sandbox r c s).world.k8s_state).0
        ≡ ok tt
      → (d : Sandbox) × ((view (sweep_idle r c (some known) t s).1.world.k8s_state).sandbox b.name
          ≡ some d)
        × (d.operating_mode ≡ mode_suspended)
  unfolding sweep_idle
  sweep_idle-suspends c known t s b i sane fits wanted held input idle off taken =
      let on = (eq_iff (annotation anno_connector c) "true").1 wanted in
      let decided = (decide_idle_iff i fits).1 idle in
      let s₁ = after_sandbox r c s in
      let s₂ : Sweeping KS CS AS = (gather r c (lookup c.name known) (some b) t s₁).1 in
      let sane₁ = k.get_sandbox-Sane (sandbox_name_of c) s.world.k8s_state sane in
      let same = (gather-input r c (lookup c.name known) (some b) t s₁).0 in
      let switch =
        λ (x : KS). (r.manager.k8s.patch_sandbox_operating_mode b.name mode_suspended x).1 in
      let total : (sweep_known r c known t s).1.world.k8s_state ≡ switch s₁.world.k8s_state =
        ap (λ w. w.k8s_state) (sweep_known-suspends r c known t s b i held input decided)
        ∙ suspend-writes r c b t s₂.world off
        ∙ ap switch same in
      let (d, there, mode) =
        k.patch_sandbox_operating_mode-ok b.name mode_suspended s₁.world.k8s_state sane₁ taken in
      (d, rw (on, total) there, mode)
