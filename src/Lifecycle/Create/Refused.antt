-- ===== src/Lifecycle/Create/Refused.antt =====
-- A connector that refuses the instance of a Create, or one of its chats (lifecycle/manager.go).
use hermes_cluster.Base.{String, ◌≡◌, refl, List, [], ◌∷◌, inl, inr, ◌⊎◌}
use hermes_cluster.Base.Errors.{Err, Sentinel, wrap, errors_is}
use hermes_cluster.Base.Exec.{ok, err}
use hermes_cluster.Connector.{ProvisionResult}
use hermes_cluster.Lifecycle.{Manager, World, RouteKey, CreateRequest}
use hermes_cluster.Lifecycle.Create.{
  provision_of, bind_context, route_of, bind_routes, provision_and_bind,
}

module _ {KS CS AS : Type 0} (m : Manager KS CS AS) where
  -- The connector refuses to bind one of the chats, having bound those before it.
  abbrev pub IsUnbound : String → List RouteKey → CS → Err → Type 0
  IsUnbound id [] c e = ⊥
  IsUnbound id (key ∷ keys) c e =
      ((m.connector.set_route (route_of m.defaults id key) c).0 ≡ err e)
      ⊎ (((m.connector.set_route (route_of m.defaults id key) c).0 ≡ ok tt)
          × IsUnbound id keys (m.connector.set_route (route_of m.defaults id key) c).1 e)

  -- The connector refuses the instance, or one of its chats.
  abbrev pub IsRefused : String → CreateRequest → CS → Err → Type 0
  IsRefused id req c e =
      ((m.connector.provision (provision_of m.defaults id req) c).0 ≡ err e)
      ⊎ ((result : ProvisionResult) × ((m.connector.provision (provision_of m.defaults id req) c).0
            ≡ ok result)
          × IsUnbound id req.route_keys (m.connector.provision (provision_of m.defaults id req) c).1
              e)

  bind_routes_refused :
      (id : String) (keys : List RouteKey) (w : World KS CS AS) (e : Err)
      → IsUnbound id keys w.connector_state e
      → (f : Err) × ((bind_routes m id keys w).0 ≡ err f)
        × ((kind : Sentinel) → errors_is f kind ≡ errors_is e kind)
  unfolding bind_routes errors_is
  bind_routes_refused id [] w e h = absurd h
  bind_routes_refused id (key ∷ keys) w e (inl refused) = (
    wrap (bind_context (route_of m.defaults id key)) e,
    rw (bind_routes, refused) refl,
    λ t. refl,
  )
  bind_routes_refused id (key ∷ keys) w e (inr (bound, later)) =
      let c = (m.connector.set_route (route_of m.defaults id key) w.connector_state).1 in
      let (f, failed, kind) =
        bind_routes_refused id keys (record w { connector_state = c }) e later in
      (f, rw (bind_routes, bound) failed, kind)

  pub provision_and_bind_refused :
      (id : String) (req : CreateRequest) (w : World KS CS AS) (e : Err)
      → IsRefused id req w.connector_state e
      → (f : Err) × ((provision_and_bind m id req w).0 ≡ err f)
        × ((kind : Sentinel) → errors_is f kind ≡ errors_is e kind)
  unfolding provision_and_bind
  provision_and_bind_refused id req w e (inl refused) = (e, rw refused refl, λ t. refl)
  provision_and_bind_refused id req w e (inr (result, made, unbound)) =
      let c = (m.connector.provision (provision_of m.defaults id req) w.connector_state).1 in
      let (f, failed, kind) =
        bind_routes_refused id req.route_keys (record w { connector_state = c }) e unbound in
      (f, rw made failed, kind)
