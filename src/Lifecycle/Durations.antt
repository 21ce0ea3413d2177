-- ===== src/Lifecycle/Durations.antt =====
-- effectiveDuration, EffectiveTTL and EffectiveIdleTimeout of lifecycle/manager.go.
pub mod Laws
use hermes_cluster.Base.{String, Option, none, some, ◌==◌, if◌then◌else◌}
use hermes_cluster.Base.Int.{ℤ, pos, ltb_ℤ}
use hermes_cluster.Base.Decimal.{parse_int}
use hermes_cluster.Clock.{Duration, seconds}
use hermes_cluster.Session.{anno_ttl_seconds, anno_idle_timeout_seconds}
use hermes_cluster.K8s.{Claim}
use hermes_cluster.Lifecycle.{Defaults, annotation}

abbrev pub of_seconds : Option ℤ → Duration → Duration
of_seconds none default = default
of_seconds (some secs) default = if ltb_ℤ secs (pos 0) then default else seconds secs

unfoldable pub effective_duration : String → Duration → Duration
effective_duration text default =
    if text == "" then default else of_seconds (parse_int text) default

unfoldable pub effective_ttl : Defaults → Claim → Duration
unfolding effective_duration
effective_ttl d claim = effective_duration (annotation anno_ttl_seconds claim) d.ttl

unfoldable pub effective_idle_timeout : Defaults → Claim → Duration
unfolding effective_duration
effective_idle_timeout d claim =
    effective_duration (annotation anno_idle_timeout_seconds claim) d.idle_timeout
