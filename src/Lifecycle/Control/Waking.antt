-- ===== src/Lifecycle/Control/Waking.antt =====
-- What Wake and Restart do, for any client that keeps the contract (lifecycle/manager.go).
use hermes_cluster.Base.{String, ◌≡◌, ap, ◌∙◌, false, some, ◌==◌, arith, inl, inr}
use hermes_cluster.Base.Exec.{ok, Done-cases, Result-cases}
use hermes_cluster.Session.{mode_running, mode_suspended}
use hermes_cluster.K8s.{Claim, Sandbox}
use hermes_cluster.K8s.Contract.{View, Contract}
use hermes_cluster.Lifecycle.{Manager, World, sandbox_name_of}
use hermes_cluster.Lifecycle.Control.{clear_wake_at_patch, satisfy_wake_at, wake, restart}

module _ {KS CS AS : Type 0} (m : Manager KS CS AS) {view : KS → View} {Sane : KS → Type 0}
    (k : Contract m.k8s view Sane) where
  -- The sandbox of a claim runs, and no other sandbox was touched.
  pub record IsWoken (c : Claim) (before after : View) : Type 0 where
    pub running :
        (b : Sandbox) × (after.sandbox (sandbox_name_of c) ≡ some b)
        × (b.operating_mode ≡ mode_running)
    pub others :
        (j : String) → (sandbox_name_of c == j) ≡ false → after.sandbox j ≡ before.sandbox j

  satisfy_wake_at-sandbox :
      (c : Claim) (w : World KS CS AS)
      → Sane w.k8s_state
      → (view (satisfy_wake_at m c w).1.k8s_state).sandbox ≡ (view w.k8s_state).sandbox
  unfolding satisfy_wake_at
  satisfy_wake_at-sandbox c w s =
      ground (arith, k.patch_claim_annotations-sandbox c.name clear_wake_at_patch w.k8s_state s)

  patched-IsWoken :
      (c : Claim) (before s : KS)
      → Sane s
      → view s ≡ view before
      → (m.k8s.patch_sandbox_operating_mode (sandbox_name_of c) mode_running s).0 ≡ ok tt
      → IsWoken c
          (view before)
          (view (m.k8s.patch_sandbox_operating_mode (sandbox_name_of c) mode_running s).1)
  patched-IsWoken c before s sane same done = record {
    running = k.patch_sandbox_operating_mode-ok (sandbox_name_of c) mode_running s sane done;
    others = λ j d.
        k.patch_sandbox_operating_mode-others (sandbox_name_of c) mode_running s j sane d
        ∙ ap (λ v. v.sandbox j) same;
  }

  IsWoken-sandbox :
      {c : Claim} {before after later : View}
      → later.sandbox ≡ after.sandbox
      → IsWoken c before after
      → IsWoken c before later
  IsWoken-sandbox {c} {before} {after} {later} e h = record {
    running = (h.running.0, ap (λ f. f (sandbox_name_of c)) e ∙ h.running.1, h.running.2);
    others = λ j d. ap (λ f. f j) e ∙ h.others j d;
  }

  -- A wake that succeeds leaves the sandbox of the named session in operating mode Running, whatever
  -- mode it had, and every other sandbox as it was.
  pub wake-IsWoken :
      (id : String) (w : World KS CS AS)
      → Sane w.k8s_state
      → (wake m id w).0 ≡ ok tt
      → (c : Claim) × ((view w.k8s_state).claim id ≡ some c)
        × IsWoken c (view w.k8s_state) (view (wake m id w).1.k8s_state)
  unfolding wake
  wake-IsWoken id w s h = elim (Result-cases (m.k8s.get_claim id w.k8s_state).0) [
    | inr (e, missing) ↦ absurd (ground arith)
    | inl (c, found) ↦
        let t : KS = (m.k8s.get_claim id w.k8s_state).1 in
        let sane = k.get_claim-Sane id w.k8s_state s in
        let same = k.get_claim-view id w.k8s_state s in
        let u : KS = (m.k8s.patch_sandbox_operating_mode (sandbox_name_of c) mode_running t).1 in
        let w₂ : World KS CS AS = record w { k8s_state = u } in
        elim (Done-cases
          (m.k8s.patch_sandbox_operating_mode (sandbox_name_of c) mode_running t).0) [
            | inr (e, refused) ↦ absurd (ground arith)
            | inl done ↦
                let woken = patched-IsWoken c w.k8s_state t sane same done in
                let sane₂ =
                  k.patch_sandbox_operating_mode-Sane (sandbox_name_of c) mode_running t sane in
                let path : (wake m id w).1 ≡ (satisfy_wake_at m c w₂).1 = ground arith in
                (
                  c,
                  (k.get_claim-ok id w.k8s_state c s found).0,
                  rw path (IsWoken-sandbox (satisfy_wake_at-sandbox c w₂ sane₂) woken),
                )
          ]
  ]

  -- the cluster once the suspend half of a restart was answered, whatever the answer
  abbrev pub after_suspend : String → String → KS → KS
  after_suspend id n s =
      (m.k8s.patch_sandbox_operating_mode n mode_suspended (m.k8s.get_claim id s).1).1

  -- A restart first asks for operating mode Suspended, then for Running, and only the second answer
  -- counts: if the claim is read and the sandbox takes the mode Running once the first request was
  -- answered, granted or refused, the restart succeeds, after the read of the claim both requests have
  -- reached the cluster in that order and nothing else has, the sandbox is in operating mode Running,
  -- and every claim is as it was.
  pub restart-running :
      (id : String) (c : Claim) (w : World KS CS AS)
      → Sane w.k8s_state
      → (m.k8s.get_claim id w.k8s_state).0 ≡ ok c
      → (m.k8s.patch_sandbox_operating_mode
          (sandbox_name_of c)
          mode_running
          (after_suspend id (sandbox_name_of c) w.k8s_state)).0
        ≡ ok tt
      → (b : Sandbox) × ((restart m id w).0 ≡ ok tt)
        × ((restart m id w).1.k8s_state
            ≡ (m.k8s.patch_sandbox_operating_mode
                (sandbox_name_of c)
                mode_running
                (after_suspend id (sandbox_name_of c) w.k8s_state)).1)
        × ((view (restart m id w).1.k8s_state).sandbox (sandbox_name_of c) ≡ some b)
        × (b.operating_mode ≡ mode_running)
        × ((view (restart m id w).1.k8s_state).claim ≡ (view w.k8s_state).claim)
  unfolding restart
  restart-running id c w s found done =
      let n = sandbox_name_of c in
      let t : KS = (m.k8s.get_claim id w.k8s_state).1 in
      let u : KS = after_suspend id n w.k8s_state in
      let sane = k.get_claim-Sane id w.k8s_state s in
      let sane₂ = k.patch_sandbox_operating_mode-Sane n mode_suspended t sane in
      let path : (restart m id w).1.k8s_state
          ≡ (m.k8s.patch_sandbox_operating_mode n mode_running u).1 =
        ground arith in
      let (b, stored, running) = k.patch_sandbox_operating_mode-ok n mode_running u sane₂ done in
      (
        b,
        ground arith,
        path,
        rw path stored,
        running,
        rw path (
            k.patch_sandbox_operating_mode-claim n mode_running u sane₂
            ∙ k.patch_sandbox_operating_mode-claim n mode_suspended t sane
            ∙ ap (λ v. v.claim) (k.get_claim-view id w.k8s_state s)),
      )
