-- ===== src/Sweeper/Quiet.antt =====
-- The quiet clock of the sweeper (trackQuiet and pruneQuiet of sweeper/runner.go).
pub mod Laws
use hermes_cluster.Base.{
  String, Bool, true, false, ◌||◌, Option, none, some, List, [], if◌then◌else◌,
}
use hermes_cluster.Base.Dict.{Dict, lookup, insert, erase, retain, contains}
use hermes_cluster.Clock.{Time, zero_time}
use hermes_cluster.Agent.{Report, busy}

-- report == nil || report.Busy()
unfoldable pub is_active : Option Report → Bool
unfolding busy
is_active none = true
is_active (some r) = busy r

-- a nil map is made before use
abbrev pub entries : Option (Dict Time) → Dict Time
entries none = []
entries (some m) = m

-- TrackQuiet, from the entries: the moment returned, and the entries after
unfoldable pub track : String → Option Report → Time → Dict Time → Time × Dict Time
unfolding is_active
track name report now m =
    if is_active report
    then (zero_time, erase name m)
    else elim (lookup name m) [ some since ↦ (since, m) | none ↦ (now, insert name now m) ]

unfoldable pub track_quiet :
    String → Option Report → Time → Option (Dict Time) → Time × Option (Dict Time)
unfolding track
track_quiet name report now quiet =
    let (t, m) = track name report now (entries quiet) in (t, some m)

-- PruneQuiet, with the names of the claims
unfoldable pub prune_quiet : List String → Option (Dict Time) → Option (Dict Time)
prune_quiet alive none = none
prune_quiet alive (some m) = some (retain (contains alive) m)
