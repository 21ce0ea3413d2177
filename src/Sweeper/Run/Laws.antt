-- ===== src/Sweeper/Run/Laws.antt =====
-- The loop of sweeps ends, and how long it pauses (sweeper/runner.go).
use hermes_cluster.Base.{
  ℕ, zero, suc, ap, sym, subst, ◌∙◌, ◌+◌, ◌-◌, ◌<◌, ◌≤◌, ◌↔◌, Bool, ◌/◌, ◌%◌, ◌≡◌, refl, true,
  false, List, [], ◌∷◌, ◌++◌, map, eqb, arith,
}
use hermes_cluster.Base.Int.{
  ℤ, pos, negsuc, ◌+ℤ◌, ◌-ℤ◌, ◌≤ℤ◌, ◌<ℤ◌, leb_ℤ, half_range, IsInt64, wrap64_of_IsInt64, +ℤ_parts,
  -ℤ_parts,
}
use hermes_cluster.Base.Text.{length, get_or}
use hermes_cluster.Base.Exec.{ok}
use hermes_cluster.Clock.{Duration, second}
use hermes_cluster.Sweeper.{Runner, Sweeping}
use hermes_cluster.Sweeper.Sweep.{sweep}
use hermes_cluster.Sweeper.Run.{reconcile_every, quotient, jitter_range, pause, Turn, run_from, run}

-- With an interval of a second or more that is not within a twentieth of overflowing, Int63n has a
-- range to draw from, and whatever it draws, the pause is exact and lies within a twentieth of the
-- interval on either side of it.
pub pause_bounds :
    (interval : Duration) (draw : ℤ)
    → IsInt64 (interval +ℤ quotient interval 20)
    → second ≤ℤ interval
    → pos 0 ≤ℤ draw
    → draw <ℤ jitter_range interval
    → (pos 0 <ℤ jitter_range interval)
      × (pause interval draw ≡ (interval -ℤ quotient interval 20) +ℤ draw)
      × (interval -ℤ quotient interval 20 ≤ℤ pause interval draw)
      × (pause interval draw ≤ℤ interval +ℤ quotient interval 20)
unfolding pause jitter_range quotient
pause_bounds (negsuc n) draw fits long low high = absurd (omega arith)
pause_bounds (pos n) (negsuc d) fits long low high = absurd (omega arith)
pause_bounds (pos n) (pos d) fits long low high =
    let least = pos n -ℤ pos (n / 20) in
    let most = pos n +ℤ pos (n / 20) in
    let total = least +ℤ pos d in
    let parts = -ℤ_parts (pos n) (pos (n / 20)) in
    let parts' = +ℤ_parts (pos n) (pos (n / 20)) in
    let parts'' = +ℤ_parts least (pos d) in
    let exact = wrap64_of_IsInt64 least (ground (arith, parts, parts')) in
    let same = wrap64_of_IsInt64 total (ground (arith, parts, parts', parts'')) in
    rw (exact, same) (omega arith, refl, omega arith, omega arith)

abbrev pub AllGoOn : List Turn → Type 0
AllGoOn [] = Unit
AllGoOn (turn ∷ turns) = (turn.cancelled ≡ false) × AllGoOn turns

-- every random number lies below a tenth of n
abbrev pub AllDrawn : ℕ → List Turn → Type 0
AllDrawn n [] = Unit
AllDrawn n (turn ∷ turns) = (pos 0 ≤ℤ turn.draw) × (turn.draw <ℤ pos (n / 10)) × AllDrawn n turns

-- the entries that are true are the first and every tenth after it
abbrev pub AreTenths : List Bool → Type 0
AreTenths reports = (i : ℕ) → i < length reports → (get_or reports i false ≡ true) ↔ (i % 10 ≡ 0)

tenths : ℕ → ℕ → List Bool
tenths cycle zero = []
tenths cycle (suc n) = eqb (cycle % 10) 0 ∷ tenths (suc cycle) n

length-tenths : (cycle n : ℕ) → length (tenths cycle n) ≡ n
unfolding tenths
length-tenths cycle zero = refl
length-tenths cycle (suc n) = ap suc (length-tenths (suc cycle) n)

get_or-tenths :
    (cycle n i : ℕ)
    → i < length (tenths cycle n)
    → (get_or (tenths cycle n) i false ≡ true) ↔ ((cycle + i) % 10 ≡ 0)
unfolding tenths
get_or-tenths cycle zero i h = absurd (omega arith)
get_or-tenths cycle (suc n) zero h = let same : cycle + 0 ≡ cycle = omega arith in ground arith
get_or-tenths cycle (suc n) (suc i) h =
    let same : cycle + suc i ≡ suc cycle + i = omega arith in
    rw same (get_or-tenths (suc cycle) n i (omega arith))

pos_sub : (a b : ℕ) → b ≤ a → pos a -ℤ pos b ≡ pos (a - b)
unfolding ◌-ℤ◌
pos_sub a b h = ground arith

jitter_range-pos : (n : ℕ) → second ≤ℤ pos n → pos 0 <ℤ jitter_range (pos n)
unfolding jitter_range quotient
jitter_range-pos n long = omega arith

pause-exact :
    (n : ℕ) (draw : ℤ)
    → second ≤ℤ pos n
    → n + n / 20 < half_range
    → pos 0 ≤ℤ draw
    → draw <ℤ pos (n / 10)
    → pause (pos n) draw ≡ pos (n - n / 20) +ℤ draw
unfolding quotient jitter_range
pause-exact n draw long fits low high =
    let parts = +ℤ_parts (pos n) (pos (n / 20)) in
    let (range, exact, least, most) =
      pause_bounds (pos n) draw (ground (arith, parts)) long low high in
    let less : pos n -ℤ pos (n / 20) ≡ pos (n - n / 20) = pos_sub n (n / 20) (omega arith) in
    exact ∙ rw less refl

waits-exact :
    (n : ℕ) (turns : List Turn)
    → second ≤ℤ pos n
    → n + n / 20 < half_range
    → AllDrawn n turns
    → map (λ t. pause (pos n) t.draw) turns ≡ map (λ t. pos (n - n / 20) +ℤ t.draw) turns
waits-exact n [] long fits drawn = refl
waits-exact n (turn ∷ turns) long fits (low, high, rest) =
    rw (pause-exact n turn.draw long fits low high, waits-exact n turns long fits rest) refl

module _ {KS CS AS : Type 0} (r : Runner KS CS AS) where
  -- so many sweeps in a row, every tenth of which reconciles
  abbrev pub swept : ℕ → ℕ → Sweeping KS CS AS → Sweeping KS CS AS
  swept cycle zero s = s
  swept cycle (suc n) s = swept (suc cycle) n (sweep r (eqb (cycle % reconcile_every) 0) s).1

  run_from-returns :
      (cycle : ℕ) (before after : List Turn) (last : Turn) (s : Sweeping KS CS AS)
      → pos 0 <ℤ jitter_range r.interval
      → AllGoOn before
      → last.cancelled ≡ true
      → run_from r cycle (before ++ (last ∷ after)) s ≡ (
        ok (record {
          waits = map (λ t. pause r.interval t.draw) (before ++ (last ∷ []));
          returned = true;
        }),
        swept cycle (suc (length before)) s,
      )
  unfolding run_from
  run_from-returns cycle [] after last s h all done =
      let positive : leb_ℤ (jitter_range r.interval) (pos 0) ≡ false = ground arith in
      rw (positive, done)
  run_from-returns cycle (turn ∷ before) after last s h all done =
      let positive : leb_ℤ (jitter_range r.interval) (pos 0) ≡ false = ground arith in
      let s' = (sweep r (eqb (cycle % reconcile_every) 0) s).1 in
      let later = run_from-returns (suc cycle) before after last s' h all.1 done in
      rw (positive, all.0, later)

  -- a sweep for each entry, with a reconcile report where it is true
  abbrev pub sweeps : List Bool → Sweeping KS CS AS → Sweeping KS CS AS
  sweeps [] s = s
  sweeps (reports ∷ rest) s = sweeps rest (sweep r reports s).1

  swept-sweeps : (cycle n : ℕ) (s : Sweeping KS CS AS) → swept cycle n s ≡ sweeps (tenths cycle n) s
  unfolding tenths
  swept-sweeps cycle zero s = refl
  swept-sweeps cycle (suc n) s =
      swept-sweeps (suc cycle) n (sweep r (eqb (cycle % reconcile_every) 0) s).1

  -- Let the interval be n nanoseconds, a second or more and not within a twentieth of overflowing, and
  -- let the random numbers lie below a tenth of it. Once the context is done the loop returns: it has
  -- swept once for the start and once for every pause that ran out, the first sweep and every tenth
  -- after it with a reconcile report and no other, and each pause that it asked for is the interval
  -- less a twentieth, plus that turn's random number.
  pub run-returns :
      (n : ℕ) (before after : List Turn) (last : Turn) (s : Sweeping KS CS AS)
      → r.interval ≡ pos n
      → second ≤ℤ pos n
      → n + n / 20 < half_range
      → AllDrawn n (before ++ (last ∷ []))
      → AllGoOn before
      → last.cancelled ≡ true
      → (reports : List Bool) × (run r (before ++ (last ∷ after)) s ≡ (
        ok (record {
          waits = map (λ t. pos (n - n / 20) +ℤ t.draw) (before ++ (last ∷ []));
          returned = true;
        }),
        sweeps reports s,
      ))
        × (length reports ≡ suc (length before))
        × AreTenths reports
  unfolding run
  run-returns n before after last s same long fits drawn all done =
      let positive : pos 0 <ℤ jitter_range r.interval = rw same (jitter_range-pos n long) in
      let returned = run_from-returns 0 before after last s positive all done in
      let turns = before ++ (last ∷ []) in
      let waited : map (λ t. pause r.interval t.draw) turns
          ≡ map (λ t. pos (n - n / 20) +ℤ t.draw) turns =
        subst (λ i. map (λ t. pause i t.draw) turns ≡ map (λ t. pos (n - n / 20) +ℤ t.draw) turns)
          (sym same) (waits-exact n turns long fits drawn) in
      (
        tenths 0 (suc (length before)),
        returned ∙ rw (waited, swept-sweeps 0 (suc (length before)) s) refl,
        length-tenths 0 (suc (length before)),
        λ i inside.
            let start : 0 + i ≡ i = omega arith in
            rw start at (get_or-tenths 0 (suc (length before)) i inside),
      )
