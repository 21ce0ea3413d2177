-- ===== src/Sweeper/Suspend/Laws.antt =====
-- What the idle sweep suspends (sweeper/runner.go), for any client that keeps the contract.
use hermes_cluster.Base.{
  ◌≡◌, refl, ap, ◌∙◌, ◌⊎◌, inl, inr, true, false, Option, arith, none, some, ◌==◌, eq_iff,
  Bool-cases, Option-cases,
}
use hermes_cluster.Base.Int.{IsInt64}
use hermes_cluster.Base.Dict.{Dict, lookup}
use hermes_cluster.Base.Exec.{ok, continue}
use hermes_cluster.Clock.{Time}
use hermes_cluster.Session.{anno_connector}
use hermes_cluster.K8s.{Claim, Sandbox}
use hermes_cluster.K8s.Contract.{View, Contract}
use hermes_cluster.Connector.{Instance}
use hermes_cluster.Agent.{Report, busy}
use hermes_cluster.Lifecycle.{World, annotation, sandbox_name_of, agent_client}
use hermes_cluster.Lifecycle.Durations.{effective_idle_timeout}
use hermes_cluster.Lifecycle.Read.{sandbox}
use hermes_cluster.Lifecycle.Read.Laws.{sandbox-view, sandbox-held}
use hermes_cluster.Lifecycle.Frame.{sandbox-Leaves}
use hermes_cluster.Sweeper.{Runner, Sweeping}
use hermes_cluster.Sweeper.Idle.{IdleInput, decide_idle, decide_cron}
use hermes_cluster.Sweeper.Idle.Laws.{
  IsIdle, IsSandboxIdle, IsAgentSilent, is_running_iff, decide_idle_iff,
}
use hermes_cluster.Sweeper.Exposure.{status_target}
use hermes_cluster.Sweeper.Suspend.{
  idle_input, gather, cron_gate, suspend_from, suspend, sweep_known, sweep_idle,
}
use hermes_cluster.Sweeper.Quiet.{entries}
use hermes_cluster.Sweeper.Suspend.Observed.{
  IsQuietSince, track_quiet-IsQuietSince, IsPolled, status_answer, gather-IsPolled,
}
use hermes_cluster.Sweeper.Suspend.Facts.{
  reads_cron, Suspends, Suspends-from, suspend_from-Suspends, sandbox-answers, gather-input,
  cron_gate-decides,
}

module _ {KS CS AS : Type 0} (r : Runner KS CS AS) {view : KS → View} {Sane : KS → Type 0}
    (k : Contract r.manager.k8s view Sane) where
  -- What must have been observed for a sandbox to be suspended by a sweep that starts in a state.
  pub record IsJustified (c : Claim) (known : Option (Dict Instance)) (t : Time)
      (s : Sweeping KS CS AS) (i : IdleInput) (wake : Option Time) : Type 0 where
    pub idle : IsIdle i
    pub wants_connector : annotation anno_connector c ≡ "true"
    pub instance_seen :
        (instances : Dict Instance) × (known ≡ some instances)
        × (i.instance_seen ≡ lookup c.name instances)
    pub timeout : i.idle_timeout ≡ effective_idle_timeout r.manager.defaults c
    pub now : i.now ≡ t
    pub polled : i.agent_enabled ≡ (agent_client r.manager).enabled
    pub sandbox_held :
        (b : Sandbox)
        → i.sandbox ≡ some b
        → (view s.world.k8s_state).sandbox (sandbox_name_of c) ≡ some b
    -- the report is the agent's answer, and the quiet moment is the clock's of before or this one
    pub observed :
        (agent_client r.manager).enabled ≡ true
        → (report : Report) × (i.agent ≡ some report)
          × (((agent_client r.manager).status (status_target r c i.sandbox) s.world.agent_state).0
              ≡ ok report)
          × IsQuietSince (lookup c.name (entries s.quiet_since)) t i.quiet_since
    -- the schedule is asked of the agents after the report
    pub cron :
        reads_cron r ≡ true
        → (fire : Option Time) × (((agent_client r.manager).next_cron_fire
              (status_target r c i.sandbox)
              ((agent_client r.manager).status
                (status_target r c i.sandbox)
                s.world.agent_state).1).0
            ≡ ok fire)
          × (decide_cron fire t r.idle_horizon r.wake_boot_margin ≡ some wake)

  suspend-Suspends :
      (c : Claim) (b : Option Sandbox) (t : Time) (w : World KS CS AS)
      → Sane w.k8s_state
      → ((view (suspend r c b t w).1.k8s_state).sandbox ≡ (view w.k8s_state).sandbox)
        ⊎ ((wake : Option Time) × Suspends r k c.name b wake
              (view w.k8s_state)
              (view (suspend r c b t w).1.k8s_state)
            × (reads_cron r ≡ true
                → (fire : Option Time) × (((agent_client r.manager).next_cron_fire
                      (status_target r c b)
                      w.agent_state).0
                    ≡ ok fire)
                  × (decide_cron fire t r.idle_horizon r.wake_boot_margin ≡ some wake)))
  unfolding suspend suspend_from
  suspend-Suspends c b t w sane =
      let (same, g, answer, decided) = cron_gate-decides r c b t w in
      elim (Option-cases g) [
        | inl closed ↦ rw (answer, continue, closed) (inl (ap (λ s. (view s).sandbox) same))
        | inr (wake, clear) ↦
            let w₁ : World KS CS AS = (cron_gate r c b t w).1 in
            let done = suspend_from-Suspends r k c b wake w₁ (rw same sane) in
            rw (answer, continue, clear)
              (inr (
                wake,
                Suspends-from r k c.name b wake (view w₁.k8s_state)
                    (view (suspend_from r c b (some wake) w₁).1.k8s_state) (view w.k8s_state)
                    (ap (λ s. (view s).sandbox) same) done,
                λ on. let (fire, asked, verdict) = decided wake clear on in (fire, asked, verdict),
              ))
      ]

  sandbox-agent_state :
      (c : Claim) (w : World KS CS AS) → (sandbox r.manager c w).1.agent_state ≡ w.agent_state
  unfolding sandbox
  sandbox-agent_state c w = refl

  -- What was observed of the agent, for an input that passes the gate.
  idle-observed :
      (c : Claim) (b : Option Sandbox) (t : Time) (a after : AS) (quiet : Option (Dict Time))
      (i : IdleInput)
      → IsPolled r c b t a quiet i after
      → IsAgentSilent i
      → (report : Report) × (i.agent ≡ some report)
        × ((status_answer r c b a).0 ≡ ok report)
        × IsQuietSince (lookup c.name (entries quiet)) t i.quiet_since
  unfolding busy
  idle-observed c b t a after quiet i polled (report, reached, agents, sessions, past) =
      let free : busy report ≡ false = ground arith in
      (
        report,
        reached,
        polled.answer report reached,
        rw (polled.quiet_since, reached) (track_quiet-IsQuietSince c.name report t quiet free),
      )

  -- The idle sweep of a session leaves every sandbox as it was, or it was justified to suspend the
  -- session's own: every guard of the gate held of the facts of this sweep. These are the sandbox
  -- that the cluster holds, the row of the known instances, the time of the sweep, and, if agents are
  -- polled, the report with which the session's agent answers in the state at the start of the sweep
  -- and the moment since which the quiet clock has had it quiet, this one where it had none. The
  -- session wants the connector, and, if schedules are read, the agent's next fire was read after
  -- that report and the cron half of the gate let the suspend through. Then no other sandbox was
  -- touched, and the wake that the cron half asks for is written in the session's claim.
  pub sweep_idle-IsJustified :
      (c : Claim) (known : Option (Dict Instance)) (t : Time) (s : Sweeping KS CS AS)
      → Sane s.world.k8s_state
      → IsInt64 (effective_idle_timeout r.manager.defaults c)
      → ((view (sweep_idle r c known t s).1.world.k8s_state).sandbox
          ≡ (view s.world.k8s_state).sandbox)
        ⊎ ((i : IdleInput) × (wake : Option Time) × IsJustified c known t s i wake
            × Suspends r k c.name i.sandbox wake
                (view s.world.k8s_state)
                (view (sweep_idle r c known t s).1.world.k8s_state))
  unfolding sweep_idle sweep_known
  sweep_idle-IsJustified c none t s sane fits = inl refl
  sweep_idle-IsJustified c (some instances) t s sane fits =
      elim (Bool-cases (annotation anno_connector c == "true")) [
        | inr off ↦ rw off (inl refl)
        | inl on ↦
            let (b, read) = sandbox-answers r c s.world in
            let w₁ : World KS CS AS = (sandbox r.manager c s.world).1 in
            let s₁ : Sweeping KS CS AS = record s { world = w₁ } in
            let sane₁ = (sandbox-Leaves r.manager k "" c s.world sane).0 in
            let same₁ = sandbox-view r.manager k c s.world sane in
            let (same, report, since, input) = gather-input r c (lookup c.name instances) b t s₁ in
            let polled = (agent_client r.manager).enabled in
            let i : IdleInput = idle_input r c (lookup c.name instances) b t polled report since in
            let s₂ : Sweeping KS CS AS = (gather r c (lookup c.name instances) b t s₁).1 in
            let polls =
              λ (d : Sandbox) (on : polled ≡ true) (bound : b ≡ some d) (up : IsSandboxIdle i d).
                gather-IsPolled r c (lookup c.name instances) b t s₁ i s.world.agent_state d on
                  bound ((is_running_iff d).1 (up.0, up.1, up.2)) (sandbox-agent_state c s.world)
                  input in
            let kept : view s₂.world.k8s_state ≡ view s.world.k8s_state = ap view same ∙ same₁ in
            elim (Bool-cases (decide_idle i)) [
              | inr busy ↦ rw (on, read, continue, input, busy) (inl (ap (λ v. v.sandbox) kept))
              | inl idle ↦ elim (suspend-Suspends c b t s₂.world (rw same sane₁)) [
                | inl untouched ↦
                    rw (on, read, continue, input, idle)
                      (inl (untouched ∙ ap (λ v. v.sandbox) kept))
                | inr (wake, done, cron) ↦
                    let facts : IsIdle i = (decide_idle_iff i fits).0 idle in
                    let (d, bound, up) = facts.sandbox in
                    rw (on, read, continue, input, idle)
                      (inr (
                        i,
                        wake,
                        record {
                          idle = facts;
                          wants_connector = (eq_iff (annotation anno_connector c) "true").0 on;
                          instance_seen = (instances, refl, refl);
                          timeout = refl;
                          now = refl;
                          polled = refl;
                          sandbox_held = λ d bound.
                              sandbox-held r.manager k c s.world d sane (read ∙ ap ok bound);
                          observed = λ on.
                              idle-observed c b t s.world.agent_state s₂.world.agent_state
                                s.quiet_since i (polls d on bound up) (facts.agent on);
                          cron = λ reads.
                              let on : polled ≡ true = ground arith in
                              let rest = (polls d on bound up).rest in
                              let (fire, asked, verdict) = cron reads in
                              (fire, rw⁻¹ rest asked, verdict);
                        },
                        Suspends-from r k c.name b wake (view s₂.world.k8s_state)
                            (view (suspend r c b t s₂.world).1.k8s_state) (view s.world.k8s_state)
                            (ap (λ v. v.sandbox) kept) done,
                      ))
              ]
            ]
      ]
