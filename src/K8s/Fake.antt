-- ===== src/K8s/Fake.antt =====
-- lifecycle-manager/internal/k8s/fake.go: the in-memory client. A map that is nil reads as an
-- empty one, and `init` makes it one, so both are the empty dictionary here.
pub mod Reads
pub mod Writes
pub mod Sound
use text.Mathlib.Text.{is_le}
use Prim.Native.String.{compare}
use hermes_cluster.Base.{
  suc, String, Bool, true, false, Option, none, some, List, [], ◌∷◌, ◌==◌, if◌then◌else◌,
}
use hermes_cluster.Base.Dict.{Dict, lookup, insert, erase, keys}
use hermes_cluster.Base.Errors.{Err, sentinel, wrap, not_found, already_exists}
use hermes_cluster.Base.Exec.{Exec, ok, err}
use hermes_cluster.Clock.{Clock, Time}
use hermes_cluster.Session.{mode_running, mode_suspended}
use hermes_cluster.K8s.{Claim, Sandbox, ClaimSpec, ExposureSpec, Client}

pub record Fake : Type 0 where
  pub claims : Dict Claim
  pub sandboxes : Dict Sandbox
  pub exposures : Dict ExposureSpec
  pub create_sandbox_on_claim : Bool
  -- Err: returned by every method when set
  pub fault : Option Err
  pub clock : Clock

-- time.Now()
abbrev pub now : Fake → Time
now f = f.clock.now_at f.clock.reads

abbrev pub ticked : Fake → Clock
ticked f = record { now_at = f.clock.now_at; reads = suc f.clock.reads }

-- the loop that copies a map
unfoldable pub copy : Dict String → Dict String
copy [] = []
copy ((k, v) ∷ m) = insert k v (copy m)

-- AddSession
unfoldable pub add_session : String → Time → Dict String → String → Bool → Fake → Fake
add_session name created_at annotations mode ready f = record f {
  claims =
      insert name
        (record {
          name = name;
          uid = "";
          created_at = created_at;
          annotations = annotations;
          terminating = false;
          sandbox_name = name;
        })
        f.claims;
  sandboxes =
      insert name
        (record {
          name = name;
          operating_mode = mode;
          ready = ready;
          ready_changed = created_at;
          suspended = mode == mode_suspended;
          service_fqdn = name;
          selector = "";
        })
        f.sandboxes;
}

-- SetSandbox
unfoldable pub set_sandbox : String → Sandbox → Fake → Fake
set_sandbox name s f = record f { sandboxes = insert name s f.sandboxes }

pub new_claim : ClaimSpec → Fake → Claim
new_claim spec f = record {
  name = spec.name;
  uid = "";
  created_at = now f;
  annotations = copy spec.annotations;
  terminating = false;
  sandbox_name = if f.create_sandbox_on_claim then spec.name else "";
}

pub new_sandbox : ClaimSpec → Fake → Sandbox
new_sandbox spec f = record {
  name = spec.name;
  operating_mode = mode_running;
  ready = true;
  ready_changed = now f;
  suspended = false;
  service_fqdn = "";
  selector = "";
}

unfoldable pub create_claim : ClaimSpec → Exec Fake Unit
unfolding new_claim new_sandbox
create_claim spec f = elim f.fault [
  | some e ↦ (err e, f)
  | none ↦ elim (lookup spec.name f.claims) [
    | some c ↦ (err (wrap spec.name (sentinel already_exists)), f)
    | none ↦ (
      ok tt,
      record f {
        claims = insert spec.name (new_claim spec f) f.claims;
        sandboxes =
            if f.create_sandbox_on_claim
            then insert spec.name (new_sandbox spec f) f.sandboxes
            else f.sandboxes;
        clock = ticked f;
      },
    )
  ]
]

unfoldable pub get_claim : String → Exec Fake Claim
get_claim name f = elim f.fault [
  | some e ↦ (err e, f)
  | none ↦ elim (lookup name f.claims) [
    | none ↦ (err (wrap name (sentinel not_found)), f)
    | some c ↦ (ok c, f)
  ]
]

-- sort.Strings
insert_sorted : String → List String → List String
insert_sorted n [] = n ∷ []
insert_sorted n (m ∷ ms) = if is_le (compare n m) then n ∷ m ∷ ms else m ∷ insert_sorted n ms

sort_strings : List String → List String
unfolding insert_sorted
sort_strings [] = []
sort_strings (n ∷ ns) = insert_sorted n (sort_strings ns)

-- `out = append(out, *f.claims[n])`; each name is a key of the map
claims_of : Dict Claim → List String → List Claim
claims_of claims [] = []
claims_of claims (n ∷ ns) =
    let rest = claims_of claims ns in elim (lookup n claims) [ none ↦ rest | some c ↦ c ∷ rest ]

unfoldable pub list_claims : Exec Fake (List Claim)
unfolding sort_strings claims_of
list_claims f = elim f.fault [
  | some e ↦ (err e, f)
  | none ↦ (ok (claims_of f.claims (sort_strings (keys f.claims))), f)
]

unfoldable pub delete_claim : String → Exec Fake Unit
delete_claim name f = elim f.fault [
  | some e ↦ (err e, f)
  | none ↦ elim (lookup name f.claims) [
    | none ↦ (err (wrap name (sentinel not_found)), f)
    | some c ↦ (
      ok tt,
      record f {
        claims = erase name f.claims;
        sandboxes = if c.sandbox_name == "" then f.sandboxes else erase c.sandbox_name f.sandboxes;
      },
    )
  ]
]

-- the loop of PatchClaimAnnotations
unfoldable pub merge : Dict (Option String) → Dict String → Dict String
merge [] m = m
merge ((k, none) ∷ patch) m = erase k (merge patch m)
merge ((k, some v) ∷ patch) m = insert k v (merge patch m)

unfoldable pub patch_claim_annotations : String → Dict (Option String) → Exec Fake Unit
unfolding merge
patch_claim_annotations name patch f = elim f.fault [
  | some e ↦ (err e, f)
  | none ↦ elim (lookup name f.claims) [
    | none ↦ (err (wrap name (sentinel not_found)), f)
    | some c ↦ (
      ok tt,
      record f {
        claims = insert name (record c { annotations = merge patch c.annotations }) f.claims;
      },
    )
  ]
]

unfoldable pub get_sandbox : String → Exec Fake Sandbox
get_sandbox name f = elim f.fault [
  | some e ↦ (err e, f)
  | none ↦ elim (lookup name f.sandboxes) [
    | none ↦ (err (wrap name (sentinel not_found)), f)
    | some s ↦ (ok s, f)
  ]
]

-- mode drives the conditions, as if the controller settled at once
unfoldable pub patch_sandbox_operating_mode : String → String → Exec Fake Unit
patch_sandbox_operating_mode name mode f = elim f.fault [
  | some e ↦ (err e, f)
  | none ↦ elim (lookup name f.sandboxes) [
    | none ↦ (err (wrap name (sentinel not_found)), f)
    | some s ↦ (
      ok tt,
      record f {
        sandboxes =
            insert name
              (record s {
                operating_mode = mode;
                suspended = mode == mode_suspended;
                ready = mode == mode_running;
                ready_changed = now f;
              })
              f.sandboxes;
        clock = ticked f;
      },
    )
  ]
]

-- first write wins
unfoldable pub ensure_exposure : ExposureSpec → Exec Fake Unit
ensure_exposure spec f = elim f.fault [
  | some e ↦ (err e, f)
  | none ↦ elim (lookup spec.session_name f.exposures) [
    | some old ↦ (ok tt, f)
    | none ↦ (ok tt, record f { exposures = insert spec.session_name spec f.exposures })
  ]
]

-- Exposure
unfoldable pub exposure : String → Fake → Option ExposureSpec
exposure name f = lookup name f.exposures

unfoldable pub ping : Exec Fake Unit
ping f = elim f.fault [ some e ↦ (err e, f) | none ↦ (ok tt, f) ]

abbrev pub fake_client : Client Fake
fake_client = record {
  create_claim = create_claim;
  get_claim = get_claim;
  list_claims = list_claims;
  delete_claim = delete_claim;
  patch_claim_annotations = patch_claim_annotations;
  get_sandbox = get_sandbox;
  patch_sandbox_operating_mode = patch_sandbox_operating_mode;
  ensure_exposure = ensure_exposure;
  ping = ping;
}
