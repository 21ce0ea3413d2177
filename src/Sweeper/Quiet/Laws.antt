-- ===== src/Sweeper/Quiet/Laws.antt =====
-- What the quiet clock shows (sweeper/runner.go).
use hermes_cluster.Base.{
  String, ◌≡◌, refl, ap, true, false, Option, none, some, List, [], ◌∷◌, ◌++◌, ◌==◌, eq_iff,
  if◌then◌else◌, arith, Bool-cases, inl, inr,
}
use hermes_cluster.Base.Dict.{Dict, lookup, contains, lookup-insert, lookup-erase, lookup-retain}
use hermes_cluster.Clock.{Time}
use hermes_cluster.Agent.{Report}
use hermes_cluster.Sweeper.Quiet.{is_active, entries, track, track_quiet, prune_quiet}

-- What happens to the clock: a session is observed, or the entries of all but some names go.
pub data Event : Type 0 where
  observed : String → Option Report → Time → Event
  pruned : List String → Event

-- The clock after the events, the latest first, from a fresh start.
abbrev pub clock_after : List Event → Option (Dict Time)
clock_after [] = none
clock_after (Event.observed name r t ∷ past) = (track_quiet name r t (clock_after past)).1
clock_after (Event.pruned alive ∷ past) = prune_quiet alive (clock_after past)

abbrev pub Observation : Type 0
Observation = Option Report × Time

-- The observations of one session since its entry was last pruned, the latest first.
abbrev pub seen : String → List Event → List Observation
seen n [] = []
seen n (Event.observed name r t ∷ past) =
    let rest = seen n past in if name == n then (r, t) ∷ rest else rest
seen n (Event.pruned alive ∷ past) = let rest = seen n past in if contains alive n then rest else []

abbrev pub AllQuiet : List Observation → Type 0
AllQuiet [] = Unit
AllQuiet ((r, t) ∷ past) = (is_active r ≡ false) × AllQuiet past

-- No observation, or the latest one found the session busy or unreachable.
abbrev pub IsBroken : List Observation → Type 0
IsBroken [] = Unit
IsBroken ((r, t) ∷ past) = is_active r ≡ true

-- The latest observations are quiet back to one made at `since`, and before that one the session
-- was busy, unreachable, or not observed at all.
abbrev pub IsQuietSince : List Observation → Time → Type 0
IsQuietSince history since =
    (later : List Observation) × (r : Option Report) × (earlier : List Observation) × (history
      ≡ later ++ ((r, since) ∷ earlier))
    × AllQuiet later
    × (is_active r ≡ false)
    × IsBroken earlier

-- What a lookup of the clock's entry says of the history.
abbrev pub Explains : Option Time → List Observation → Type 0
Explains none history = IsBroken history
Explains (some since) history = IsQuietSince history since

lookup-track :
    (n j : String) (r : Option Report) (t : Time) (m : Dict Time)
    → lookup j (track n r t m).1 ≡ (
        if n == j
        then (if is_active r then none else elim (lookup j m) [ some s ↦ some s | none ↦ some t ])
        else lookup j m)
unfolding track
lookup-track n j r t m = ground (arith, eq_iff n j, lookup-insert n j t m, lookup-erase n j m)

Explains-quiet :
    (o : Option Time) (r : Option Report) (t : Time) (history : List Observation)
    → is_active r ≡ false
    → Explains o history
    → Explains (elim o [ some s ↦ some s | none ↦ some t ]) ((r, t) ∷ history)
Explains-quiet none r t history quiet broken = ([], r, history, refl, tt, quiet, broken)
Explains-quiet (some s) r t history quiet (later, q, earlier, split, all_quiet, q_quiet, broken) =
    ((r, t) ∷ later, q, earlier, ap (λ l. (r, t) ∷ l) split, (quiet, all_quiet), q_quiet, broken)

lookup-prune :
    (alive : List String) (j : String) (q : Option (Dict Time))
    → lookup j (entries (prune_quiet alive q))
      ≡ (if contains alive j then lookup j (entries q) else none)
unfolding prune_quiet lookup
lookup-prune alive j none = ground arith
lookup-prune alive j (some m) = lookup-retain (contains alive) j m

-- Whatever the sweeps observed, of all sessions and in any order, and whenever they pruned the
-- clock: if a session has an entry, then the session was seen quiet at that moment and at every
-- observation since, and the one before was not quiet, if there was one. If it has no entry, it has
-- not been observed since its entry was pruned, or was last seen busy or not reached.
pub clock_after-Explains :
    (events : List Event) (n : String)
    → Explains (lookup n (entries (clock_after events))) (seen n events)
unfolding track_quiet lookup
clock_after-Explains [] n = tt
clock_after-Explains (Event.observed name r t ∷ past) n =
    let ih = clock_after-Explains past n in
    elim (Bool-cases (name == n)) [
      | inr other ↦ rw (lookup-track name n r t (entries (clock_after past)), other) ih
      | inl own ↦ elim (Bool-cases (is_active r)) [
        | inl active ↦ rw (lookup-track name n r t (entries (clock_after past)), own, active) active
        | inr quiet ↦
            rw (lookup-track name n r t (entries (clock_after past)), own, quiet)
              (Explains-quiet (lookup n (entries (clock_after past))) r t (seen n past) quiet ih)
      ]
    ]
clock_after-Explains (Event.pruned alive ∷ past) n =
    let ih = clock_after-Explains past n in
    elim (Bool-cases (contains alive n)) [
      | inl kept ↦ rw (lookup-prune alive n (clock_after past), kept) ih
      | inr gone ↦ rw (lookup-prune alive n (clock_after past), gone) tt
    ]
