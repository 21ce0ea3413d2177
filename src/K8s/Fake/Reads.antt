-- ===== src/K8s/Fake/Reads.antt =====
-- The reads of the in-memory client, and the good order that its operations keep.
use hermes_cluster.Base.{String, ◌≡◌, refl, true, false, Option, none, some, [], ◌∷◌, arith}
use hermes_cluster.Base.Dict.{Dict, lookup, lookup-insert, lookup-erase}
use hermes_cluster.Base.Errors.{Err, not_found, errors_is}
use hermes_cluster.Base.Exec.{ok, err}
use hermes_cluster.K8s.{Claim, Sandbox}
use hermes_cluster.K8s.Contract.{View, patched}
use hermes_cluster.K8s.Fake.{Fake, copy, merge, get_claim, get_sandbox}

abbrev pub view : Fake → View
view f = record { claim = λ n. lookup n f.claims; sandbox = λ n. lookup n f.sandboxes }

-- Every object is stored under its name, and an outage is not reported as a missing object.
pub record Sane (f : Fake) : Type 0 where
  pub claim_names : (n : String) (c : Claim) → lookup n f.claims ≡ some c → c.name ≡ n
  pub sandbox_names : (n : String) (b : Sandbox) → lookup n f.sandboxes ≡ some b → b.name ≡ n
  pub outage : (e : Err) → f.fault ≡ some e → errors_is e not_found ≡ false

module _ (n : String) (f : Fake) where
  pub get_claim-state : (get_claim n f).1 ≡ f
  unfolding get_claim
  get_claim-state = ground arith

  pub get_sandbox-state : (get_sandbox n f).1 ≡ f
  unfolding get_sandbox
  get_sandbox-state = ground arith

  pub get_claim-found : (c : Claim) → (get_claim n f).0 ≡ ok c → lookup n f.claims ≡ some c
  unfolding get_claim
  get_claim-found c h = ground arith

  pub get_sandbox-found : (b : Sandbox) → (get_sandbox n f).0 ≡ ok b → lookup n f.sandboxes ≡ some b
  unfolding get_sandbox
  get_sandbox-found b h = ground arith

  pub get_claim-missing :
      (e : Err)
      → Sane f
      → (get_claim n f).0 ≡ err e
      → errors_is e not_found ≡ true
      → lookup n f.claims ≡ none
  unfolding get_claim
  get_claim-missing e s h m = ground (arith, s.outage e)

pub lookup-copy : (k : String) (m : Dict String) → lookup k (copy m) ≡ lookup k m
unfolding copy lookup
lookup-copy k [] = refl
lookup-copy k ((j, v) ∷ m) = ground (arith, lookup-insert j k v (copy m), lookup-copy k m)

-- A merge patch sets the keys that it gives a text, and removes those that it gives none.
pub lookup-merge :
    (k : String) (patch : Dict (Option String)) (m : Dict String)
    → lookup k (merge patch m) ≡ patched (lookup k patch) (lookup k m)
unfolding merge lookup
lookup-merge k [] m = refl
lookup-merge k ((j, none) ∷ patch) m =
    ground (arith, lookup-erase j k (merge patch m), lookup-merge k patch m)
lookup-merge k ((j, some v) ∷ patch) m =
    ground (arith, lookup-insert j k v (merge patch m), lookup-merge k patch m)
