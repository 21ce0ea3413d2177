-- ===== src/Sweeper/Run.antt =====
-- Run of sweeper/runner.go: the loop of sweeps, and the jittered pause between two of them.
pub mod Laws
use hermes_cluster.Base.{
  ℕ, suc, ◌/◌, ◌%◌, ◌≡◌, Bool, true, false, List, [], ◌∷◌, eqb, if◌then◌else◌,
}
use hermes_cluster.Base.Int.{ℤ, pos, negsuc, ◌+ℤ◌, ◌-ℤ◌, leb_ℤ, wrap64}
use hermes_cluster.Base.Errors.{other}
use hermes_cluster.Base.Exec.{Exec, pure, raise, attempt, ◌>>=◌, ◌>>◌}
use hermes_cluster.Clock.{Duration}
use hermes_cluster.Sweeper.{Runner, Sweeping}
use hermes_cluster.Sweeper.Sweep.{sweep}

-- reconcileEvery
abbrev pub reconcile_every : ℕ
reconcile_every = 10

-- Go's quotient by a positive constant, which truncates towards 0
unfoldable pub quotient : ℤ → ℕ → ℤ
quotient (pos n) k = pos (n / k)
quotient (negsuc n) k = pos 0 -ℤ pos (suc n / k)

-- the argument of rand.Int63n, which panics unless it is positive
unfoldable pub jitter_range : Duration → ℤ
unfolding quotient
jitter_range interval = quotient interval 10

-- r.Interval - r.Interval/20 + jitter, in int64 arithmetic
unfoldable pub pause : Duration → ℤ → Duration
unfolding quotient
pause interval jitter = wrap64 (wrap64 (interval -ℤ quotient interval 20) +ℤ jitter)

-- What one turn of the loop meets: the number that rand.Int63n draws, and whether the context is
-- done before the pause is over.
pub record Turn : Type 0 where
  pub draw : ℤ
  pub cancelled : Bool

-- What the loop has done by the end of a schedule of turns: the pauses that it asked for, and
-- whether it has returned.
pub record Log : Type 0 where
  pub waits : List Duration
  pub returned : Bool

abbrev pub noted : Duration → Log → Log
noted wait log = record log { waits = wait ∷ log.waits }

module _ {KS CS AS : Type 0} (r : Runner KS CS AS) where
  unfoldable pub run_from : ℕ → List Turn → Exec (Sweeping KS CS AS) Log
  unfolding pause jitter_range
  run_from cycle [] = pure (record { waits = []; returned = false })
  run_from cycle (turn ∷ turns) = do
    attempt (sweep r (eqb (cycle % reconcile_every) 0))
    if leb_ℤ (jitter_range r.interval) (pos 0)
        then raise (other "invalid argument to Int63n")
        else if turn.cancelled
        then pure (record { waits = pause r.interval turn.draw ∷ []; returned = true })
        else (do log ← run_from (suc cycle) turns; pure (noted (pause r.interval turn.draw) log))

  -- Run
  unfoldable pub run : List Turn → Exec (Sweeping KS CS AS) Log
  unfolding run_from
  run = run_from 0
