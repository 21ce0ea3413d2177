-- ===== src/Agent/Http/Laws.antt =====
-- What a cron schedule that was read tells (agent/http.go).
use mathlib.Core.List.{Memᴰ}
use hermes_cluster.Base.{◌≡◌, false, Option, some, List}
use hermes_cluster.Base.Int.{◌≤ℤ◌}
use hermes_cluster.Clock.{Time}
use hermes_cluster.Agent.Http.{HttpClient, CronJob, is_skipped, parse_cron_time}

module _ {S : Type 0} (c : HttpClient S) where
  -- a job that is on and has a next run
  abbrev pub IsLive : CronJob → List CronJob → Type 0
  IsLive job jobs = Memᴰ job jobs × (is_skipped job ≡ false)

  -- The time is no later than the result, which there is.
  abbrev pub Bounds : Option Time → Time → Type 0
  Bounds fire t = (e : Time) × (fire ≡ some e) × (e ≤ℤ t)

  -- Every live job has a readable time that the result bounds, and the result, if there is one, is
  -- the time of a live job.
  pub record IsEarliest (jobs : List CronJob) (fire : Option Time) : Type 0 where
    pub lower :
        (job : CronJob)
        → IsLive job jobs
        → (t : Time) × (parse_cron_time c job.next_run_at ≡ some t) × Bounds fire t
    pub attained :
        (e : Time)
        → fire ≡ some e
        → (job : CronJob) × IsLive job jobs × (parse_cron_time c job.next_run_at ≡ some e)
