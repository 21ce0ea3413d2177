-- ===== src/Sweeper/Suspend/Observed.antt =====
-- What a sweep observes of a running session's agent, and when it was first seen quiet
-- (sweeper/runner.go).
use hermes_cluster.Base.{
  String, ◌≡◌, refl, true, false, Option, none, some, arith, Option-cases, subst, sym, ◌∙◌, inl,
  inr,
}
use hermes_cluster.Base.Dict.{Dict, lookup}
use hermes_cluster.Base.Exec.{Result, ok, Result-cases, continue}
use hermes_cluster.Clock.{Time}
use hermes_cluster.K8s.{Claim, Sandbox}
use hermes_cluster.Connector.{Instance}
use hermes_cluster.Agent.{Report, busy}
use hermes_cluster.Lifecycle.{World, agent_client}
use hermes_cluster.Sweeper.{Runner, Sweeping}
use hermes_cluster.Sweeper.Idle.{IdleInput, is_running}
use hermes_cluster.Sweeper.Exposure.{status_target}
use hermes_cluster.Sweeper.Quiet.{is_active, entries, track, track_quiet}
use hermes_cluster.Sweeper.Suspend.{poll_agent, idle_input, observe, tracked, gather}

-- The moment since which an agent that reports no work was seen quiet: the one that was known, or
-- the moment of this sweep.
abbrev pub IsQuietSince : Option Time → Time → Time → Type 0
IsQuietSince (some since) t moment = moment ≡ since
IsQuietSince none t moment = moment ≡ t

pub track_quiet-IsQuietSince :
    (name : String) (report : Report) (t : Time) (quiet : Option (Dict Time))
    → busy report ≡ false
    → IsQuietSince (lookup name (entries quiet)) t (track_quiet name (some report) t quiet).0
unfolding track_quiet track is_active
track_quiet-IsQuietSince name report t quiet free =
    elim (Option-cases (lookup name (entries quiet))) [
      | inl unseen ↦ rw (free, unseen) refl
      | inr (since, seen) ↦ rw (free, seen) refl
    ]

ok_injective : {i j : IdleInput} → ok i ≡ ok j → i ≡ j
ok_injective h = cc

module _ {KS CS AS : Type 0} (r : Runner KS CS AS) where
  -- the agent's answer to a status call, and the state after it
  abbrev pub status_answer : Claim → Option Sandbox → AS → Result Report × AS
  status_answer c b a = (agent_client r.manager).status (status_target r c b) a

  -- The input of the gate holds what the agent answered, and the quiet clock's moment for it.
  pub record IsPolled (c : Claim) (b : Option Sandbox) (t : Time) (a : AS)
      (quiet : Option (Dict Time)) (i : IdleInput) (after : AS) : Type 0 where
    pub answer : (report : Report) → i.agent ≡ some report → (status_answer c b a).0 ≡ ok report
    pub quiet_since : i.quiet_since ≡ (track_quiet c.name i.agent t quiet).0
    pub rest : after ≡ (status_answer c b a).1

  observe_running :
      (c : Claim) (b : Sandbox) (w : World KS CS AS)
      → is_running b ≡ true
      → (o : Option Report) × ((observe r c (some b) w).0 ≡ ok o)
        × ((report : Report)
            → o ≡ some report
            → (status_answer c (some b) w.agent_state).0 ≡ ok report)
        × ((observe r c (some b) w).1.agent_state ≡ (status_answer c (some b) w.agent_state).1)
  unfolding observe poll_agent
  observe_running c b w running = elim (Result-cases (status_answer c (some b) w.agent_state).0) [
    | inl (report, reached) ↦
        rw (running, reached) (some report, refl, (λ other same. ground arith), refl)
    | inr (e, failed) ↦
        rw (running, failed) (none, refl, (λ other same. absurd (ground arith)), refl)
  ]

  gather_running :
      (c : Claim) (x : Option Instance) (b : Sandbox) (t : Time) (s : Sweeping KS CS AS)
      (i : IdleInput)
      → (agent_client r.manager).enabled ≡ true
      → is_running b ≡ true
      → (gather r c x (some b) t s).0 ≡ ok i
      → IsPolled c
          (some b)
          t
          s.world.agent_state
          s.quiet_since
          i
          (gather r c x (some b) t s).1.world.agent_state
  unfolding gather tracked
  gather_running c x b t s i polls running h =
      let (o, seen, answered, rest) = observe_running c b s.world running in
      let whole : (gather r c x (some b) t s).0
          ≡ ok (idle_input r c x (some b) t true o (track_quiet c.name o t s.quiet_since).0) =
        rw (polls, seen, continue) refl in
      let input : idle_input r c x (some b) t true o (track_quiet c.name o t s.quiet_since).0 ≡ i =
        ok_injective (sym whole ∙ h) in
      let after : (gather r c x (some b) t s).1.world.agent_state
          ≡ (observe r c (some b) s.world).1.agent_state =
        rw (polls, seen, continue) refl in
      subst
        (λ i.
          IsPolled c (some b) t s.world.agent_state s.quiet_since i
            (gather r c x (some b) t s).1.world.agent_state)
        input (record { answer = answered; quiet_since = refl; rest = after ∙ rest })

  -- The same of a sandbox that was read, in a state of the agents that is known.
  pub gather-IsPolled :
      (c : Claim) (x : Option Instance) (b : Option Sandbox) (t : Time) (s : Sweeping KS CS AS)
      (i : IdleInput) (a : AS) (d : Sandbox)
      → (agent_client r.manager).enabled ≡ true
      → b ≡ some d
      → is_running d ≡ true
      → s.world.agent_state ≡ a
      → (gather r c x b t s).0 ≡ ok i
      → IsPolled c b t a s.quiet_since i (gather r c x b t s).1.world.agent_state
  gather-IsPolled c x none t s i a d polls bound running same h = absurd (ground arith)
  gather-IsPolled c x (some b) t s i a d polls bound running same h =
      let runs : is_running b ≡ true = ground arith in
      subst
        (λ a.
          IsPolled c (some b) t a s.quiet_since i (gather r c x (some b) t s).1.world.agent_state)
        same (gather_running c x b t s i polls runs h)
