-- ===== src/K8s.antt =====
-- lifecycle-manager/internal/k8s/client.go: what the program sees of Kubernetes, and the interface
-- through which it acts. The state `S` is whatever an implementation keeps.
pub mod Contract
pub mod Fake
pub mod Value
pub mod Unstructured
pub mod Dynamic
use hermes_cluster.Base.{ℕ, String, Bool, Option, List}
use hermes_cluster.Base.Int.{ℤ}
use hermes_cluster.Base.Dict.{Dict}
use hermes_cluster.Base.Exec.{Exec}
use hermes_cluster.Clock.{Time}

pub record Claim : Type 0 where
  pub name : String
  pub uid : String
  pub created_at : Time
  pub annotations : Dict String
  pub terminating : Bool
  pub sandbox_name : String

pub record Sandbox : Type 0 where
  pub name : String
  pub operating_mode : String
  pub ready : Bool
  pub ready_changed : Time
  pub suspended : Bool
  pub service_fqdn : String
  pub selector : String

pub record ClaimSpec : Type 0 where
  pub name : String
  pub warm_pool : String
  pub annotations : Dict String

pub record ExposureSpec : Type 0 where
  pub session_name : String
  pub owner_uid : String
  pub selector : String
  pub port : ℤ
  pub host : String
  pub ingress_class : String
  pub tls_secret : String
  pub deny_service : String

pub record Client (S : Type 0) : Type 0 where
  pub create_claim : ClaimSpec → Exec S Unit
  pub get_claim : String → Exec S Claim
  pub list_claims : Exec S (List Claim)
  pub delete_claim : String → Exec S Unit
  -- `none` as a value removes the key
  pub patch_claim_annotations : String → Dict (Option String) → Exec S Unit
  pub get_sandbox : String → Exec S Sandbox
  pub patch_sandbox_operating_mode : String → String → Exec S Unit
  pub ensure_exposure : ExposureSpec → Exec S Unit
  pub ping : Exec S Unit
