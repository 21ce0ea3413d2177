-- ===== src/Sweeper/Timers/Stamped.antt =====
-- A wake-at annotation as the suspend writes it, read by the next sweeps (sweeper/runner.go).
use hermes_cluster.Base.{
  ℕ, ◌/◌, ◌*◌, ◌<◌, String, ◌≡◌, sym, ◌∙◌, ap, false, none, some, ◌==◌, eq_iff, inl, inr,
  Bool-cases,
}
use hermes_cluster.Base.Int.{pos, ◌≤ℤ◌, ◌<ℤ◌}
use hermes_cluster.Base.Exec.{ok}
use hermes_cluster.Clock.{Time, nanoseconds_per_second}
use hermes_cluster.Clock.Rfc3339
use hermes_cluster.Clock.Rfc3339.RoundTrip.{seconds_in_years, parse-format}
use hermes_cluster.Session.{mode_suspended, anno_wake_at}
use hermes_cluster.K8s.{Claim, Sandbox}
use hermes_cluster.K8s.Contract.{View, Contract}
use hermes_cluster.Lifecycle.{World, annotation}
use hermes_cluster.Lifecycle.Read.{sandbox}
use hermes_cluster.Lifecycle.Control.{wake}
use hermes_cluster.Lifecycle.Control.Waking.{IsWoken}
use hermes_cluster.Sweeper.{Runner}
use hermes_cluster.Sweeper.Timers.{sweep_wake}
use hermes_cluster.Sweeper.Timers.Laws.{sweep_wake-early, sweep_wake-due}

-- the empty text is no time
parse-empty : (s : String) (t : Time) → Rfc3339.parse s ≡ some t → (s == "") ≡ false
unfolding Rfc3339.parse
parse-empty s t h = elim (Bool-cases (s == "")) [
  | inl blank ↦
      let nothing : none ≡ some t = sym (ap Rfc3339.parse ((eq_iff s "").0 blank)) ∙ h in absurd cc
  | inr filled ↦ filled
]

-- the whole second below a count of nanoseconds
abbrev pub whole_second : ℕ → Time
whole_second n = pos (n / nanoseconds_per_second * nanoseconds_per_second)

module _ {KS CS AS : Type 0} (r : Runner KS CS AS) {view : KS → View} {Sane : KS → Type 0}
    (k : Contract r.manager.k8s view Sane) where
  -- Before the second of the time that was written, the sweep leaves a suspended session alone.
  pub sweep_wake-stamped_early :
      (c : Claim) (t : Time) (n : ℕ) (b : Sandbox) (w : World KS CS AS)
      → Sane w.k8s_state
      → n < seconds_in_years * nanoseconds_per_second
      → annotation anno_wake_at c ≡ Rfc3339.format (pos n)
      → (sandbox r.manager c w).0 ≡ ok (some b)
      → b.operating_mode ≡ mode_suspended
      → t <ℤ whole_second n
      → view (sweep_wake r c t w).1.k8s_state ≡ view w.k8s_state
  sweep_wake-stamped_early c t n b w sane fits written read suspended early =
      let readable = ap Rfc3339.parse written ∙ parse-format n fits in
      sweep_wake-early r k c t (whole_second n) b w sane
        (parse-empty (annotation anno_wake_at c) (whole_second n) readable) readable read suspended
        early

  -- A wake that a suspend has written in the claim, for a time of the years 1 to 9999, is honoured
  -- while the session is suspended: if the sweep reads the sandbox of the session, finds it in
  -- operating mode Suspended, and the second of that time has come, then the sweep wakes the
  -- session, and where that wake succeeds, the session's sandbox is left in operating mode Running
  -- and every other sandbox as it was.
  pub sweep_wake-stamped :
      (c : Claim) (t : Time) (n : ℕ) (b : Sandbox) (w : World KS CS AS)
      → Sane w.k8s_state
      → n < seconds_in_years * nanoseconds_per_second
      → annotation anno_wake_at c ≡ Rfc3339.format (pos n)
      → (sandbox r.manager c w).0 ≡ ok (some b)
      → b.operating_mode ≡ mode_suspended
      → whole_second n ≤ℤ t
      → (wake r.manager c.name (sandbox r.manager c w).1).0 ≡ ok tt
      → (d : Claim) × ((view w.k8s_state).claim c.name ≡ some d)
        × IsWoken r.manager k d (view w.k8s_state) (view (sweep_wake r c t w).1.k8s_state)
  sweep_wake-stamped c t n b w sane fits written read suspended due done =
      let readable = ap Rfc3339.parse written ∙ parse-format n fits in
      sweep_wake-due r k c t (whole_second n) b w sane
        (parse-empty (annotation anno_wake_at c) (whole_second n) readable) readable read suspended
        due done
