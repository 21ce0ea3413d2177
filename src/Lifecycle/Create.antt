-- ===== src/Lifecycle/Create.antt =====
-- Create of lifecycle/manager.go.
pub mod Refused
pub mod Laws
pub mod Taken
pub mod Stored
use hermes_cluster.Base.{
  String, Bool, true, false, not, ◌&&◌, ◌||◌, Option, none, some, List, [], ◌∷◌, map, ◌==◌,
  if◌then◌else◌,
}
use hermes_cluster.Base.Int.{ℤ}
use hermes_cluster.Base.Text.{◌<>◌}
use hermes_cluster.Base.Dict.{Dict, insert}
use hermes_cluster.Base.Decimal.{format_int}
use hermes_cluster.Base.Errors.{sentinel, wrap, connector_disabled}
use hermes_cluster.Base.Exec.{Exec, Result, ok, err, pure, raise, lift, attempt, ◌>>=◌, ◌>>◌}
use hermes_cluster.Session.{
  Session, anno_ttl_seconds, anno_idle_timeout_seconds, anno_display_name, anno_connector,
}
use hermes_cluster.Session.Id.{validate_id, new_id}
use hermes_cluster.K8s.{ClaimSpec}
use hermes_cluster.Connector.{ProvisionRequest, Route}
use hermes_cluster.Lifecycle.{
  Defaults, RouteKey, CreateRequest, Manager, World, on_k8s, on_connector, random,
  invalidate_instances,
}
use hermes_cluster.Lifecycle.Read.{get}

abbrev is_empty {ℓ} : {A : Type ℓ} → List A → Bool
is_empty [] = true
is_empty (x ∷ xs) = false

-- useConnector
abbrev pub wants_connector : CreateRequest → Bool
wants_connector req = req.connector || not (is_empty req.route_keys)

-- strconv.FormatBool
abbrev pub format_bool : Bool → String
format_bool b = if b then "true" else "false"

abbrev with_number : String → Option ℤ → Dict String → Dict String
with_number key none m = m
with_number key (some n) m = insert key (format_int n) m

abbrev with_text : String → String → Dict String → Dict String
with_text key text m = if text == "" then m else insert key text m

unfoldable pub annotations_of : CreateRequest → Dict String
annotations_of req = insert anno_connector (format_bool (wants_connector req)) (
    with_text anno_display_name req.display_name (
      with_number anno_idle_timeout_seconds req.idle_timeout_seconds
        (with_number anno_ttl_seconds req.ttl_seconds [])))

abbrev pub or_default : String → String → String
or_default text default = if text == "" then default else text

abbrev pub spec_of : Defaults → String → CreateRequest → ClaimSpec
spec_of d id req = record {
  name = id;
  warm_pool = or_default req.warm_pool d.warm_pool;
  annotations = annotations_of req;
}

abbrev pub provision_of : Defaults → String → CreateRequest → ProvisionRequest
provision_of d id req = record {
  gateway_id = id;
  platform = d.platform;
  bot_id = d.bot_id;
  route_keys = map (λ k. k.chat_id) req.route_keys;
  instance_id = "";
  wake_url = d.wake_base_url <> "/wake/" <> id;
  display_name = req.display_name;
}

abbrev pub route_of : Defaults → String → RouteKey → Route
route_of d id k = record {
  platform = or_default k.platform d.platform;
  chat_id = k.chat_id;
  gateway_id = id;
}

-- the context of a binding's error
abbrev bind_context : Route → String
bind_context r = "binding chat " <> r.platform <> "/" <> r.chat_id

module _ {KS CS AS : Type 0} (m : Manager KS CS AS) where
  -- the id of the request if it is valid, and a generated one if it is ""
  unfoldable pub choose_id : String → Exec (World KS CS AS) String
  choose_id id =
      if id == ""
      then (do bytes ← random; pure (new_id bytes))
      else (do lift (validate_id id); pure id)

  -- the loop over the route keys, which ends at the first error
  unfoldable pub bind_routes : String → List RouteKey → Exec (World KS CS AS) Unit
  bind_routes id [] = pure tt
  bind_routes id (k ∷ keys) = do
    r ← attempt (on_connector (m.connector.set_route (route_of m.defaults id k)))
    elim r [
      | err e ↦ raise (wrap (bind_context (route_of m.defaults id k)) e)
      | ok _ ↦ bind_routes id keys
    ]

  unfoldable pub provision_and_bind : String → CreateRequest → Exec (World KS CS AS) Unit
  unfolding bind_routes
  provision_and_bind id req = do
    on_connector (m.connector.provision (provision_of m.defaults id req))
    bind_routes id req.route_keys

  -- on an error the instance and the claim are removed; what that returns is only logged
  unfoldable pub settle : String → Result (Unit {0}) → Exec (World KS CS AS) Unit
  unfolding invalidate_instances
  settle id (ok _) = invalidate_instances
  settle id (err e) = do
    attempt (on_connector (m.connector.delete_instance id))
    attempt (on_k8s (m.k8s.delete_claim id))
    raise (wrap "connector provision failed" e)

  unfoldable pub connect : String → CreateRequest → Exec (World KS CS AS) Unit
  connect id req =
      if wants_connector req
      then (do r ← attempt (provision_and_bind id req); settle id r)
      else pure tt

  -- what follows once the id is chosen and the request is not refused
  unfoldable pub create_as : String → CreateRequest → Exec (World KS CS AS) Session
  create_as id req = do
    on_k8s (m.k8s.create_claim (spec_of m.defaults id req))
    connect id req
    get m id

  unfoldable pub create : CreateRequest → Exec (World KS CS AS) Session
  create req = do
    id ← choose_id req.id
    if wants_connector req && not m.connector.enabled
        then raise (sentinel connector_disabled)
        else create_as id req
