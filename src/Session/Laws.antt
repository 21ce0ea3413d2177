-- ===== src/Session/Laws.antt =====
-- What the derived state tells of the observed facts (session/state.go).
use hermes_cluster.Base.{◌≡◌, ◌≢◌, ◌↔◌, true, false, arith, eq_iff}
use hermes_cluster.Session.{Facts, State, derive, mode_suspended}

-- The table of docs/architecture.md: what must be observed for each state.
abbrev pub Shows : Facts → State → Type 0
Shows f State.terminating = f.terminating ≡ true
Shows f State.pending = (f.terminating ≡ false) × (f.has_sandbox ≡ false)
Shows f State.suspended =
    (f.terminating ≡ false)
    × (f.has_sandbox ≡ true)
    × (f.operating_mode ≡ mode_suspended)
    × (f.suspended ≡ true)
Shows f State.suspending =
    (f.terminating ≡ false)
    × (f.has_sandbox ≡ true)
    × (f.operating_mode ≡ mode_suspended)
    × (f.suspended ≡ false)
Shows f State.ready =
    (f.terminating ≡ false)
    × (f.has_sandbox ≡ true)
    × (f.operating_mode ≢ mode_suspended)
    × (f.ready ≡ true)
Shows f State.waking =
    (f.terminating ≡ false)
    × (f.has_sandbox ≡ true)
    × (f.operating_mode ≢ mode_suspended)
    × (f.ready ≡ false)

-- The derived state is the one state whose row of the table the facts show.
pub derive_iff : (f : Facts) (s : State) → (derive f ≡ s) ↔ Shows f s
unfolding derive
derive_iff f State.terminating = ground (arith, eq_iff f.operating_mode mode_suspended)
derive_iff f State.pending = ground (arith, eq_iff f.operating_mode mode_suspended)
derive_iff f State.suspended = ground (arith, eq_iff f.operating_mode mode_suspended)
derive_iff f State.suspending = ground (arith, eq_iff f.operating_mode mode_suspended)
derive_iff f State.ready = ground (arith, eq_iff f.operating_mode mode_suspended)
derive_iff f State.waking = ground (arith, eq_iff f.operating_mode mode_suspended)
