-- ===== src/Sweeper/Exposure.antt =====
-- lifecycle-manager/internal/sweeper/exposure.go: the objects that expose a session, and the address
-- at which its agent is polled.
use hermes_cluster.Base.{String, not, ◌&&◌, Option, none, some, ◌==◌, if◌then◌else◌}
use hermes_cluster.Base.Text.{◌<>◌, codes, between}
use hermes_cluster.Base.Exec.{Exec, pure, attempt, ◌>>=◌, ◌>>◌}
use hermes_cluster.Session.Pattern.{Pattern, class, seq, plus, matches}
use hermes_cluster.K8s.{Claim, Sandbox, ExposureSpec}
use hermes_cluster.Lifecycle.{World, on_k8s}
use hermes_cluster.Lifecycle.Read.{sandbox}
use hermes_cluster.Sweeper.{ExposureConfig, Runner}

-- ^s-dc-[0-9]+$
abbrev pub dashboard_id_pattern : Pattern
dashboard_id_pattern = seq (class (λ c. between b's' b's' c)) (
    seq (class (λ c. between b'-' b'-' c)) (
      seq (class (λ c. between b'd' b'd' c)) (
        seq (class (λ c. between b'c' b'c' c))
          (seq (class (λ c. between b'-' b'-' c)) (plus (λ c. between b'0' b'9' c))))))

module _ {KS CS AS : Type 0} (r : Runner KS CS AS) where
  -- statusTarget
  abbrev pub service_target : Claim → Option ExposureConfig → String
  service_target claim none = ""
  service_target claim (some e) = claim.name

  unfoldable pub status_target : Claim → Option Sandbox → String
  status_target claim none = service_target claim r.exposure
  status_target claim (some b) =
      if b.service_fqdn == "" then service_target claim r.exposure else b.service_fqdn

  -- the exposure that a bound session with a selector gets
  unfoldable pub exposure_spec : ExposureConfig → Claim → Sandbox → ExposureSpec
  exposure_spec e claim b =
      let public = not (e.domain == "") && matches dashboard_id_pattern (codes claim.name) in
      record {
        session_name = claim.name;
        owner_uid = claim.uid;
        selector = b.selector;
        port = e.port;
        host = if public then claim.name <> "." <> e.domain else "";
        ingress_class = if public then e.ingress_class else "";
        tls_secret = if public then e.tls_secret else "";
        deny_service = if public then e.deny_service else "";
      }

  unfoldable pub sweep_exposure :
      ExposureConfig → Claim → Option Sandbox → Exec (World KS CS AS) Unit
  unfolding exposure_spec
  sweep_exposure e claim none = pure tt
  sweep_exposure e claim (some b) =
      if b.selector == ""
      then pure tt
      else (do attempt (on_k8s (r.manager.k8s.ensure_exposure (exposure_spec e claim b))); pure tt)

  unfoldable pub expose : Option ExposureConfig → Claim → Exec (World KS CS AS) Unit
  unfolding sweep_exposure
  expose none claim = pure tt
  expose (some e) claim = do b ← sandbox r.manager claim; sweep_exposure e claim b
