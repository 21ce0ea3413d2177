-- ===== src/Sweeper/Suspend/Facts.antt =====
-- The steps of the idle sweep: gathering the facts, the cron gate, the stamp and the suspend
-- (sweeper/runner.go).
use hermes_cluster.Base.{
  String, ◌≡◌, refl, ap, ◌∙◌, ◌⊎◌, inl, inr, Bool, true, false, ◌&&◌, Option, none, some, ◌==◌,
  arith, Bool-cases,
}
use hermes_cluster.Base.Dict.{lookup}
use hermes_cluster.Base.Exec.{ok, Done-cases, Result-cases, continue}
use hermes_cluster.Clock.Rfc3339
use hermes_cluster.Clock.{Time, zero_time}
use hermes_cluster.Session.{mode_suspended, anno_wake_at}
use hermes_cluster.K8s.{Claim, Sandbox}
use hermes_cluster.K8s.Contract.{View, Contract}
use hermes_cluster.Connector.{Instance}
use hermes_cluster.Agent.{Report}
use hermes_cluster.Lifecycle.{World, agent_client}
use hermes_cluster.Lifecycle.Read.{sandbox}
use hermes_cluster.Sweeper.{Runner, Sweeping}
use hermes_cluster.Sweeper.Idle.{is_running, decide_cron}
use hermes_cluster.Sweeper.Exposure.{status_target}
use hermes_cluster.Sweeper.Suspend.{
  stamp_patch, poll_agent, idle_input, observe, gather, cron_gate, stamp, suspend_sandbox,
  suspend_from,
}

module _ {KS CS AS : Type 0} (r : Runner KS CS AS) where
  -- whether the schedule is read before a suspend
  abbrev pub reads_cron : Bool
  reads_cron = (agent_client r.manager).enabled && (agent_client r.manager).cron_configured

  pub sandbox-answers :
      (c : Claim) (w : World KS CS AS) → (b : Option Sandbox) × ((sandbox r.manager c w).0 ≡ ok b)
  unfolding sandbox
  sandbox-answers c w = (_, refl)

  observe-k8s_state :
      (c : Claim) (b : Option Sandbox) (w : World KS CS AS)
      → ((observe r c b w).1.k8s_state ≡ w.k8s_state)
        × (o : Option Report) × ((observe r c b w).0 ≡ ok o)
  unfolding observe poll_agent
  observe-k8s_state c none w = (refl, none, refl)
  observe-k8s_state c (some b) w = elim (Bool-cases (is_running b)) [
    | inr stopped ↦ rw stopped (refl, none, refl)
    | inl running ↦
        let answer = (agent_client r.manager).status (status_target r c (some b)) w.agent_state in
        elim (Result-cases answer.0) [
          | inl (report, reached) ↦ rw (running, reached) (refl, some report, refl)
          | inr (e, failed) ↦ rw (running, failed) (refl, none, refl)
        ]
  ]

  -- Gathering the facts speaks to the agent and to the quiet clock only.
  pub gather-input :
      (c : Claim) (x : Option Instance) (b : Option Sandbox) (t : Time) (s : Sweeping KS CS AS)
      → ((gather r c x b t s).1.world.k8s_state ≡ s.world.k8s_state)
        × (report : Option Report) × (since : Time) × ((gather r c x b t s).0
            ≡ ok (idle_input r c x b t (agent_client r.manager).enabled report since))
  unfolding gather
  gather-input c x b t s = elim (Bool-cases (agent_client r.manager).enabled) [
    | inr off ↦ rw off (refl, none, zero_time, refl)
    | inl on ↦
        let (same, report, seen) = observe-k8s_state c b s.world in
        rw (on, seen, continue) (same, report, _, refl)
  ]

  -- The answer of the cron gate, which speaks to the agent only. With the schedule read, it is what
  -- the cron half of the gate decides of a fire that the agent reported.
  pub cron_gate-decides :
      (c : Claim) (b : Option Sandbox) (t : Time) (w : World KS CS AS)
      → ((cron_gate r c b t w).1.k8s_state ≡ w.k8s_state)
        × (g : Option (Option Time)) × ((cron_gate r c b t w).0 ≡ ok g)
        × ((wake : Option Time)
            → g ≡ some wake
            → reads_cron ≡ true
            → (fire : Option Time) × (((agent_client r.manager).next_cron_fire
                  (status_target r c b)
                  w.agent_state).0
                ≡ ok fire)
              × (decide_cron fire t r.idle_horizon r.wake_boot_margin ≡ some wake))
  unfolding cron_gate
  cron_gate-decides c b t w = elim (Bool-cases reads_cron) [
    | inr off ↦ rw off (refl, some none, refl, λ wake e on. absurd (ground arith))
    | inl on ↦
        let answer = (agent_client r.manager).next_cron_fire (status_target r c b) w.agent_state in
        elim (Result-cases answer.0) [
          | inr (e, failed) ↦ rw (on, failed) (refl, none, refl, λ wake e _. absurd (ground arith))
          | inl (fire, known) ↦
              rw (on, known)
                (
                  refl,
                  decide_cron fire t r.idle_horizon r.wake_boot_margin,
                  refl,
                  λ wake e _. (fire, refl, e),
                )
        ]
  ]

module _ {KS CS AS : Type 0} (r : Runner KS CS AS) {view : KS → View} {Sane : KS → Type 0}
    (k : Contract r.manager.k8s view Sane) where
  -- The wake time, if there is one, is written in the claim.
  abbrev pub IsStamped : String → Option Time → View → Type 0
  IsStamped name wake v =
      (x : Time)
      → wake ≡ some x
      → (d : Claim) × (v.claim name ≡ some d)
        × (lookup anno_wake_at d.annotations ≡ some (Rfc3339.format x))

  -- Either no sandbox was touched, or none but the one that was read, and the wake time is written.
  abbrev pub Suspends : String → Option Sandbox → Option Time → View → View → Type 0
  Suspends name b wake before after =
      (after.sandbox ≡ before.sandbox)
      ⊎ ((d : Sandbox) × (b ≡ some d)
          × ((j : String) → (d.name == j) ≡ false → after.sandbox j ≡ before.sandbox j)
          × IsStamped name wake after)

  stamp-IsStamped :
      (c : Claim) (wake : Option Time) (w : World KS CS AS)
      → Sane w.k8s_state
      → (b : Bool) × ((stamp r c wake w).0 ≡ ok b)
        × ((view (stamp r c wake w).1.k8s_state).sandbox ≡ (view w.k8s_state).sandbox)
        × Sane (stamp r c wake w).1.k8s_state
        × (b ≡ true → IsStamped c.name wake (view (stamp r c wake w).1.k8s_state))
  unfolding stamp lookup
  stamp-IsStamped c none w sane = (true, refl, refl, sane, λ _ x e. absurd (ground arith))
  stamp-IsStamped c (some t) w sane =
      let patch = stamp_patch (Rfc3339.format t) in
      let kept = k.patch_claim_annotations-sandbox c.name patch w.k8s_state sane in
      let sane₁ = k.patch_claim_annotations-Sane c.name patch w.k8s_state sane in
      elim (Done-cases (r.manager.k8s.patch_claim_annotations c.name patch w.k8s_state).0) [
        | inr (e, refused) ↦ (false, rw refused refl, kept, sane₁, λ e. absurd (ground arith))
        | inl done ↦
            let (old, new, held, stored, merged) =
              k.patch_claim_annotations-ok c.name patch w.k8s_state sane done in
            (
              true,
              rw done refl,
              kept,
              sane₁,
              λ _ x e. (new, stored, ground (arith, merged.annotation anno_wake_at)),
            )
      ]

  suspend_sandbox-Suspends :
      (name : String) (b : Option Sandbox) (wake : Option Time) (w : World KS CS AS)
      → Sane w.k8s_state
      → IsStamped name wake (view w.k8s_state)
      → Suspends name b wake (view w.k8s_state) (view (suspend_sandbox r b w).1.k8s_state)
  unfolding suspend_sandbox
  suspend_sandbox-Suspends name none wake w sane stamped = inl refl
  suspend_sandbox-Suspends name (some b) wake w sane stamped = inr (
    b,
    refl,
    λ j d. k.patch_sandbox_operating_mode-others b.name mode_suspended w.k8s_state j sane d,
    λ x e.
        let (d, held, noted) = stamped x e in
        (
          d,
          ap (λ f. f name)
                (k.patch_sandbox_operating_mode-claim b.name mode_suspended w.k8s_state sane)
              ∙ held,
          noted,
        ),
  )

  pub Suspends-from :
      (name : String) (b : Option Sandbox) (wake : Option Time) (u v w : View)
      → u.sandbox ≡ w.sandbox
      → Suspends name b wake u v
      → Suspends name b wake w v
  Suspends-from name b wake u v w e (inl same) = inl (same ∙ e)
  Suspends-from name b wake u v w e (inr (d, bound, others, stamped)) =
      inr (d, bound, (λ j n. others j n ∙ ap (λ f. f j) e), stamped)

  pub suspend_from-Suspends :
      (c : Claim) (b : Option Sandbox) (wake : Option Time) (w : World KS CS AS)
      → Sane w.k8s_state
      → Suspends c.name b wake
          (view w.k8s_state)
          (view (suspend_from r c b (some wake) w).1.k8s_state)
  unfolding suspend_from
  suspend_from-Suspends c b wake w sane =
      let (go, answer, kept, sane₁, stamped) = stamp-IsStamped c wake w sane in
      elim (Bool-cases go) [
        | inr stop ↦ rw (answer, continue, stop) (inl kept)
        | inl on ↦
            rw (answer, continue, on)
              (Suspends-from c.name b wake (view (stamp r c wake w).1.k8s_state)
                (view (suspend_sandbox r b (stamp r c wake w).1).1.k8s_state) (view w.k8s_state)
                kept
                (suspend_sandbox-Suspends c.name b wake (stamp r c wake w).1 sane₁ (stamped on)))
      ]
