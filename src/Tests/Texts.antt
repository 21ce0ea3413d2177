-- ===== src/Tests/Texts.antt =====
-- Runs of the theorems on states, ids, patterns, durations and numbers.
use hermes_cluster.Base.{◌≡◌, ◌↔◌, true, false, ◌*◌, ◌<◌, none, arith}
use hermes_cluster.Base.Int.{pos, half_range}
use hermes_cluster.Base.Text.{codes}
use hermes_cluster.Base.Decimal.{format_int}
use hermes_cluster.Base.Exec.{ok}
use hermes_cluster.Clock.{nanoseconds_per_second}
use hermes_cluster.Connector.ApiError.{itoa}
use hermes_cluster.Connector.ApiError.Laws.{itoa_lem}
use hermes_cluster.Session.{State, Facts, derive}
use hermes_cluster.Session.Laws.{Shows, derive_iff}
use hermes_cluster.Session.Id.{validate_id}
use hermes_cluster.Session.Id.Laws.{IsLabel, validate_id_iff}
use hermes_cluster.Lifecycle.Durations.{effective_duration}
use hermes_cluster.Lifecycle.Durations.Laws.{effective_duration_exact_iff}

abbrev waking_facts : Facts
waking_facts = record {
  terminating = false;
  has_sandbox = true;
  operating_mode = "Running";
  ready = false;
  suspended = true;
}

derive_iff_example : (derive waking_facts ≡ State.waking) ↔ Shows waking_facts State.waking
derive_iff_example = derive_iff waking_facts State.waking

validate_id_iff_example : (validate_id "s-dc-7" ≡ ok tt) ↔ IsLabel (codes "s-dc-7")
validate_id_iff_example = validate_id_iff "s-dc-7"

-- eighteen billion seconds do not fit a duration
effective_duration_exact_iff_example :
    (effective_duration (format_int (pos 18446744074)) (pos 0)
      ≡ pos (18446744074 * nanoseconds_per_second))
    ↔ (18446744074 * nanoseconds_per_second < half_range)
effective_duration_exact_iff_example =
    effective_duration_exact_iff 18446744074 (pos 0) (omega arith)

-- nine digits
itoa_lem_example : itoa (pos 123456789) ≡ none
unfolding format_int
itoa_lem_example = itoa_lem 123456789
