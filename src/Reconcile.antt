-- ===== src/Reconcile.antt =====
-- lifecycle-manager/internal/reconcile/reconcile.go: the difference between the claims and the
-- connector's instances. The mutex of the store is left out: each operation is one step.
pub mod Laws
use hermes_cluster.Base.{
  String, Bool, true, false, not, ◌&&◌, Option, none, some, List, [], ◌∷◌, map, ◌==◌, is_some,
  if◌then◌else◌,
}
use hermes_cluster.Base.Int.{ℤ}
use hermes_cluster.Base.Dict.{Dict, lookup, keys, contains}
use hermes_cluster.Clock.{Time, to_unix}
use hermes_cluster.Session.{anno_connector}
use hermes_cluster.K8s.{Claim}
use hermes_cluster.Connector.{Instance}
use hermes_cluster.Lifecycle.{annotation}

pub record Report : Type 0 where
  pub claims_without_instances : List String
  pub instances_without_claims : List String
  pub last_run : ℤ

-- the latest report: `none` before the first
abbrev pub Store : Type 0
Store = Option Report

abbrev pub lacks_instance : Dict Instance → Claim → Bool
lacks_instance instances claim =
    annotation anno_connector claim == "true" && not (is_some (lookup claim.name instances))

-- the loop over the claims
unfoldable pub claims_without : Dict Instance → List Claim → List String
claims_without instances [] = []
claims_without instances (c ∷ claims) =
    let rest = claims_without instances claims in
    if lacks_instance instances c then c.name ∷ rest else rest

-- the loop over the keys of the instances
unfoldable pub unclaimed : List String → List String → List String
unclaimed claimed [] = []
unclaimed claimed (id ∷ ids) =
    let rest = unclaimed claimed ids in if not (contains claimed id) then id ∷ rest else rest

abbrev pub claim_names : List Claim → List String
claim_names claims = map (λ c. c.name) claims

-- Update, with the time that it reads
unfoldable pub update : Time → List Claim → Option (Dict Instance) → Store → Store
unfolding claims_without unclaimed
update now claims none store = store
update now claims (some instances) store = some (record {
  claims_without_instances = claims_without instances claims;
  instances_without_claims = unclaimed (claim_names claims) (keys instances);
  last_run = to_unix now;
})

-- Load
unfoldable pub load : Store → Option Report × Bool
load store = (store, is_some store)
