-- ===== src/Lifecycle/Read/Cache.antt =====
-- The manager's cache of the connector's instances (lifecycle/manager.go, Instances).
use hermes_cluster.Base.{
  String, ◌≡◌, refl, true, Option, none, some, List, [], ◌∷◌, ◌==◌, arith, if◌then◌else◌,
}
use hermes_cluster.Base.Int.{ltb_ℤ}
use hermes_cluster.Base.Dict.{Dict, lookup, insert, lookup-insert}
use hermes_cluster.Base.Exec.{ok}
use hermes_cluster.Clock.{sub}
use hermes_cluster.Connector.{Instance}
use hermes_cluster.Lifecycle.{Manager, World}
use hermes_cluster.Lifecycle.Read.{
  instance_cache_ttl, by_id_onto, by_id, cached_or_fetch, instances,
}

-- The last row of the list with the id.
abbrev pub latest : String → List Instance → Option Instance
latest id [] = none
latest id (i ∷ is) = elim (latest id is) [
  | some j ↦ some j
  | none ↦ if i.gateway_id == id then some i else none
]

abbrev or_else : Option Instance → Option Instance → Option Instance
or_else none b = b
or_else (some i) b = some i

lookup-by_id_onto :
    (id : String) (is : List Instance) (m : Dict Instance)
    → lookup id (by_id_onto m is) ≡ or_else (latest id is) (lookup id m)
unfolding by_id_onto
lookup-by_id_onto id [] m = refl
lookup-by_id_onto id (i ∷ is) m =
    ground
      (arith, lookup-by_id_onto id is (insert i.gateway_id i m), lookup-insert i.gateway_id id i m)

-- The map of instances holds under each id the last row of the connector's answer with that id, and
-- nothing under an id that the answer lacks.
pub lookup-by_id : (id : String) (is : List Instance) → lookup id (by_id is) ≡ latest id is
unfolding by_id lookup
lookup-by_id id is = ground (arith, lookup-by_id_onto id is [])

-- When the instances are known, asking again less than five seconds after they were read returns
-- the same instances without a call to the connector.
pub instances_cached :
    {KS CS AS : Type 0} (m : Manager KS CS AS) (w : World KS CS AS) (xs : Dict Instance)
    → (instances m w).0 ≡ ok (some xs)
    → let w' = (instances m w).1 in
      ltb_ℤ (sub (w'.clock.now_at w'.clock.reads) w'.instances_at) instance_cache_ttl ≡ true
      → ((instances m w').0 ≡ ok (some xs))
        × ((instances m w').1.connector_state ≡ w'.connector_state)
unfolding instances cached_or_fetch
instances_cached m w xs h young = ground arith
