-- ===== src/Agent/Http.antt =====
-- lifecycle-manager/internal/agent/http.go: the client of the `hermes serve` on the session pods.
-- Sending a request and JSON are Go's library and the network: they are the fields of `Web`. The cookies are part of the network's state. The lock around the login is
-- left out: a call is one step.
pub mod Laws
use Prim.Native.Char.{code}
use Prim.Native.String
use hermes_cluster.Base.{
  ℕ, String, Bool, true, false, not, ◌&&◌, Option, none, some, List, [], ◌∷◌, ◌==◌, eqb,
  if◌then◌else◌,
}
use hermes_cluster.Base.Int.{ℤ, ltb_ℤ}
use hermes_cluster.Base.Text.{codes, ◌<>◌}
use hermes_cluster.Base.Decimal.{format_int}
use hermes_cluster.Base.Errors.{Err, other, wrap}
use hermes_cluster.Base.Exec.{Exec, Result, ok, err, pure, raise, lift, ◌>>=◌, ◌>>◌}
use hermes_cluster.Clock.Rfc3339
use hermes_cluster.Clock.{Time, before}
use hermes_cluster.Agent.{Report, Client}

pub record Reply : Type 0 where
  pub code : ℕ
  pub text : String

-- cronJob: `enabled` is none when the record lacks the field
pub record CronJob : Type 0 where
  pub enabled : Option Bool
  pub next_run_at : String

-- A GET of a URL, the POST of the login form to a URL, and the two decoders (`none` for an error).
pub record Web (S : Type 0) : Type 0 where
  pub get : String → Exec S Reply
  pub post_login : String → String → String → Exec S Reply
  pub decode_report : String → Option Report
  pub decode_jobs : String → Option (List CronJob)

-- HTTPClient
pub record HttpClient (S : Type 0) : Type 0 where
  pub web : Web S
  pub port : ℤ
  pub username : String
  pub password : String

-- strings.TrimSuffix(s, "Z")
abbrev pub trim_suffix_z : String → String
trim_suffix_z String.[] = ""
trim_suffix_z (String.◌∷◌ c s) =
    let rest = trim_suffix_z s in if eqb (code c) b'Z' && s == "" then "" else String.◌∷◌ c rest

-- the job is skipped: disabled, or without a next run
unfoldable pub is_skipped : CronJob → Bool
is_skipped job = elim job.enabled [
  | none ↦ job.next_run_at == ""
  | some on ↦ if on then job.next_run_at == "" else true
]

-- the earlier of the earliest time so far and another
abbrev pub earlier : Option Time → Time → Time
earlier none t = t
earlier (some e) t = if before t e then t else e

module _ {S : Type 0} (c : HttpClient S) where
  -- CronConfigured
  abbrev pub cron_configured : Bool
  cron_configured = not (c.username == "") && not (c.password == "")

  -- baseURL
  abbrev pub base_url : String → String
  base_url target = "http://" <> target <> ":" <> format_int c.port

  abbrev decoded_report : Option Report → Result Report
  decoded_report none = err (other "GET /api/status")
  decoded_report (some r) = ok r

  -- Status
  unfoldable pub status : String → Exec S Report
  status target =
      if target == "" then raise (other "no status target (sandbox has no serviceFQDN)") else (do
        reply ← c.web.get (base_url target <> "/api/status")
        if eqb reply.code 200
            then lift (decoded_report (c.web.decode_report reply.text))
            else raise (other "GET /api/status"))

  -- parseCronTime
  unfoldable pub parse_cron_time : String → Option Time
  parse_cron_time text = elim (Rfc3339.parse text) [
    | some t ↦ some t
    | none ↦ Rfc3339.parse_naive (trim_suffix_z text)
  ]

  -- the loop over the jobs, from the earliest time so far
  unfoldable pub earliest_from : Option Time → List CronJob → Result (Option Time)
  unfolding is_skipped parse_cron_time
  earliest_from earliest [] = ok earliest
  earliest_from earliest (job ∷ jobs) =
      let skipped = earliest_from earliest jobs in
      if is_skipped job then skipped else elim (parse_cron_time job.next_run_at) [
        | none ↦ err (wrap "cron next_run_at" (other job.next_run_at))
        | some t ↦ earliest_from (some (earlier earliest t)) jobs
      ]

  -- login
  unfoldable pub login : String → Exec S Unit
  login target = do
    reply ← c.web.post_login (base_url target <> "/auth/password-login") c.username c.password
    if eqb reply.code 200 then pure tt else raise (other "password login")

  -- the end of getWithLogin
  unfoldable pub accept : Reply → Exec S String
  accept reply = if eqb reply.code 200 then pure reply.text else raise (other "GET: status")

  -- getWithLogin: one login and one more try on a 401
  unfoldable pub get_with_login : String → String → Exec S String
  unfolding login accept
  get_with_login target path = do
    reply ← c.web.get (base_url target <> path)
    if eqb reply.code 401
        then (do login target; again ← c.web.get (base_url target <> path); accept again)
        else accept reply

  unfoldable pub fires_of : Option (List CronJob) → Result (Option Time)
  unfolding earliest_from
  fires_of none = err (other "GET /api/cron/jobs")
  fires_of (some jobs) = earliest_from none jobs

  -- NextCronFire
  unfoldable pub next_cron_fire : String → Exec S (Option Time)
  unfolding get_with_login fires_of
  next_cron_fire target =
      if not cron_configured
      then raise (other "cron credentials not configured")
      else if target == ""
      then raise (other "no status target (sandbox has no serviceFQDN)")
      else (do
        text ← get_with_login target "/api/cron/jobs?profile=all"
        lift (fires_of (c.web.decode_jobs text)))

  abbrev pub http_client : Client S
  http_client = record {
    enabled = true;
    status = status;
    cron_configured = cron_configured;
    next_cron_fire = next_cron_fire;
  }
