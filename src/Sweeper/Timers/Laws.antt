-- ===== src/Sweeper/Timers/Laws.antt =====
-- What the two timers of a sweep do (sweeper/runner.go), for any client that keeps the contract.
use hermes_cluster.Base.{
  String, ◌≡◌, refl, inl, inr, Bool, true, false, Option, none, some, ◌==◌, eq_iff, if◌then◌else◌,
  arith, Bool-cases,
}
use hermes_cluster.Base.Int.{pos, ◌≤ℤ◌, ◌<ℤ◌, IsInt64}
use hermes_cluster.Base.Exec.{ok, pure, attempt, continue, ◌>>◌}
use hermes_cluster.Base.Frame.{Within, pure-Within, bind-Within, if-Within}
use hermes_cluster.Clock.Rfc3339
use hermes_cluster.Clock.{Time, Duration}
use hermes_cluster.Session.{mode_suspended, anno_wake_at}
use hermes_cluster.K8s.{Claim, Sandbox}
use hermes_cluster.K8s.Contract.{View, Contract}
use hermes_cluster.Lifecycle.{World, annotation}
use hermes_cluster.Lifecycle.Durations.{effective_ttl}
use hermes_cluster.Lifecycle.Read.{sandbox}
use hermes_cluster.Lifecycle.Read.Laws.{sandbox-view}
use hermes_cluster.Lifecycle.Control.{clear_wake_at_patch, wake, decommission}
use hermes_cluster.Lifecycle.Control.Laws.{decommission-gone}
use hermes_cluster.Lifecycle.Control.Waking.{IsWoken, wake-IsWoken}
use hermes_cluster.Lifecycle.Frame.{
  Leaves, Leaves-Preorder, sandbox-Leaves, patch_annotations-Leaves, wake-Leaves,
  decommission-Leaves,
}
use hermes_cluster.Sweeper.{Runner}
use hermes_cluster.Sweeper.Idle.Laws.{IsPast, is_zero_iff, not_before_iff}
use hermes_cluster.Sweeper.Timers.{
  is_alive, clear_wake_at, sweep_wake_bound, sweep_wake_at, sweep_wake, sweep_ttl,
}

-- A session that has a time to live and a creation time, and has had all of it.
abbrev pub IsExpired : Duration → Time → Time → Type 0
IsExpired ttl created now = (pos 0 <ℤ ttl) × IsPast now created ttl

is_alive_iff :
    (ttl : Duration) (created now : Time)
    → IsInt64 ttl
    → ((is_alive ttl created now ≡ false) → IsExpired ttl created now)
      × (IsExpired ttl created now → is_alive ttl created now ≡ false)
is_alive_iff ttl created now fits = (
  λ h.
      let lives : pos 0 <ℤ ttl = ground arith in
      (
        lives,
        (
          ground (arith, is_zero_iff created),
          ground (arith, not_before_iff now created ttl fits lives),
        ),
      ),
  λ (lives, (known, old)).
      ground (arith, is_zero_iff created, not_before_iff now created ttl fits lives),
)

module _ {KS CS AS : Type 0} (r : Runner KS CS AS) where
  -- The TTL sweep changes nothing, not even by a read, of a session that has no time to live, or
  -- whose time has not passed since its creation.
  pub sweep_ttl-young :
      (c : Claim) (t : Time) (w : World KS CS AS)
      → IsInt64 (effective_ttl r.manager.defaults c)
      → ¬ IsExpired (effective_ttl r.manager.defaults c) c.created_at t
      → (sweep_ttl r c t w).1 ≡ w
  unfolding sweep_ttl
  sweep_ttl-young c t w fits young =
      let ttl = effective_ttl r.manager.defaults c in
      elim (Bool-cases (is_alive ttl c.created_at t)) [
        | inl lives ↦ rw lives refl
        | inr over ↦ absurd (young ((is_alive_iff ttl c.created_at t fits).0 over))
      ]

module _ {KS CS AS : Type 0} (r : Runner KS CS AS) {view : KS → View} {Sane : KS → Type 0}
    (k : Contract r.manager.k8s view Sane) where
  -- If the time to live of a session has passed since its creation, and its decommission succeeds,
  -- the TTL sweep leaves no claim of it, and every other claim as it was.
  pub sweep_ttl-expires :
      (c : Claim) (t : Time) (w : World KS CS AS) (b : Bool) (j : String)
      → Sane w.k8s_state
      → IsInt64 (effective_ttl r.manager.defaults c)
      → IsExpired (effective_ttl r.manager.defaults c) c.created_at t
      → (decommission r.manager c.name w).0 ≡ ok b
      → (view (sweep_ttl r c t w).1.k8s_state).claim j
        ≡ (if c.name == j then none else (view w.k8s_state).claim j)
  unfolding sweep_ttl
  sweep_ttl-expires c t w b j sane fits expired done =
      rw ((is_alive_iff (effective_ttl r.manager.defaults c) c.created_at t fits).1 expired)
        (decommission-gone r.manager k c.name j w b sane done)

  -- A suspended session with a readable wake-at time is not touched before that time.
  pub sweep_wake-early :
      (c : Claim) (t at : Time) (b : Sandbox) (w : World KS CS AS)
      → Sane w.k8s_state
      → (annotation anno_wake_at c == "") ≡ false
      → Rfc3339.parse (annotation anno_wake_at c) ≡ some at
      → (sandbox r.manager c w).0 ≡ ok (some b)
      → b.operating_mode ≡ mode_suspended
      → t <ℤ at
      → view (sweep_wake r c t w).1.k8s_state ≡ view w.k8s_state
  unfolding sweep_wake sweep_wake_at sweep_wake_bound
  sweep_wake-early c t at b w sane set readable read suspended early =
      let same = sandbox-view r.manager k c w sane in
      let off : (b.operating_mode == mode_suspended) ≡ true =
        (eq_iff b.operating_mode mode_suspended).1 suspended in
      rw (set, readable, read, continue) (ground (arith, same, off))

  -- Once the wake-at time of a suspended session has come, a wake that succeeds leaves its sandbox
  -- in operating mode Running, and every other sandbox as it was.
  pub sweep_wake-due :
      (c : Claim) (t at : Time) (b : Sandbox) (w : World KS CS AS)
      → Sane w.k8s_state
      → (annotation anno_wake_at c == "") ≡ false
      → Rfc3339.parse (annotation anno_wake_at c) ≡ some at
      → (sandbox r.manager c w).0 ≡ ok (some b)
      → b.operating_mode ≡ mode_suspended
      → at ≤ℤ t
      → (wake r.manager c.name (sandbox r.manager c w).1).0 ≡ ok tt
      → (d : Claim) × ((view w.k8s_state).claim c.name ≡ some d)
        × IsWoken r.manager k d (view w.k8s_state) (view (sweep_wake r c t w).1.k8s_state)
  unfolding sweep_wake sweep_wake_at sweep_wake_bound
  sweep_wake-due c t at b w sane set readable read suspended due done =
      let w₁ : World KS CS AS = (sandbox r.manager c w).1 in
      let same = sandbox-view r.manager k c w sane in
      let sane₁ = (sandbox-Leaves r.manager k "" c w sane).0 in
      let off : (b.operating_mode == mode_suspended) ≡ true =
        (eq_iff b.operating_mode mode_suspended).1 suspended in
      let path : (sweep_wake r c t w).1 ≡ (wake r.manager c.name w₁).1 =
        rw (set, readable, read, continue) (ground (arith, off)) in
      let woken = wake-IsWoken r.manager k c.name w₁ sane₁ done in rw path (rw same at woken)

  clear_wake_at-Leaves :
      (j n : String) → (n == j) ≡ false → Within (Leaves r.manager k j) (clear_wake_at r n)
  unfolding clear_wake_at
  clear_wake_at-Leaves j n d = patch_annotations-Leaves r.manager k j n clear_wake_at_patch d

  woken-Leaves :
      (j n : String)
      → (n == j) ≡ false
      → Within (Leaves r.manager k j) (do attempt (wake r.manager n); pure tt)
  woken-Leaves j n d = wake-Leaves r.manager k j n d

  sweep_wake_bound-Leaves :
      (j : String) (c : Claim) (t at : Time) (b : Option Sandbox)
      → (c.name == j) ≡ false
      → Within (Leaves r.manager k j) (sweep_wake_bound r c t at b)
  unfolding sweep_wake_bound
  sweep_wake_bound-Leaves j c t at none d w s = (s, refl)
  sweep_wake_bound-Leaves j c t at (some b) d w s =
      let cleared = clear_wake_at-Leaves j c.name d w s in
      let woken = woken-Leaves j c.name d w s in ground arith

  sweep_wake_at-Leaves :
      (j : String) (c : Claim) (t : Time) (at : Option Time)
      → (c.name == j) ≡ false
      → Within (Leaves r.manager k j) (sweep_wake_at r c t at)
  unfolding sweep_wake_at
  sweep_wake_at-Leaves j c t none d = clear_wake_at-Leaves j c.name d
  sweep_wake_at-Leaves j c t (some at) d =
      bind-Within (Leaves-Preorder r.manager k j) (sandbox r.manager c) (sweep_wake_bound r c t at)
        (sandbox-Leaves r.manager k j c) (λ b. sweep_wake_bound-Leaves j c t at b d)

  pub sweep_wake-Leaves :
      (j : String) (c : Claim) (t : Time)
      → (c.name == j) ≡ false
      → Within (Leaves r.manager k j) (sweep_wake r c t)
  unfolding sweep_wake
  sweep_wake-Leaves j c t d =
      if-Within (Leaves-Preorder r.manager k j) _ _ _
        (pure-Within (Leaves-Preorder r.manager k j) tt)
        (sweep_wake_at-Leaves j c t (Rfc3339.parse (annotation anno_wake_at c)) d)

  pub sweep_ttl-Leaves :
      (j : String) (c : Claim) (t : Time)
      → (c.name == j) ≡ false
      → Within (Leaves r.manager k j) (sweep_ttl r c t)
  unfolding sweep_ttl
  sweep_ttl-Leaves j c t d =
      let p = Leaves-Preorder r.manager k j in
      if-Within p _ _ _ (pure-Within p tt) (
        bind-Within p (attempt (decommission r.manager c.name)) (λ _. pure tt)
          (decommission-Leaves r.manager k j c.name d) (λ _. pure-Within p tt))
