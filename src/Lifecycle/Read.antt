-- ===== src/Lifecycle/Read.antt =====
-- Get, List, Sandbox, Instances and assemble of lifecycle/manager.go.
pub mod Laws
pub mod Reflecting
pub mod Cache
use hermes_cluster.Base.{
  String, Bool, true, false, not, ◌&&◌, Option, none, some, List, [], ◌∷◌, ◌==◌, if◌then◌else◌,
}
use hermes_cluster.Base.Int.{pos, ltb_ℤ}
use hermes_cluster.Base.Dict.{Dict, lookup, insert}
use hermes_cluster.Base.Exec.{Exec, Result, ok, err, pure, attempt, ◌>>=◌}
use hermes_cluster.Clock.{Duration, sub, whole_seconds}
use hermes_cluster.Session.{
  Session, ConnectorView, Facts, derive, mode_running, anno_connector, anno_display_name,
}
use hermes_cluster.K8s.{Claim, Sandbox}
use hermes_cluster.Connector.{Instance}
use hermes_cluster.Lifecycle.{
  Manager, World, annotation, sandbox_name_of, on_k8s, on_connector, now,
}
use hermes_cluster.Lifecycle.Durations.{effective_ttl, effective_idle_timeout}

-- 5 * time.Second
abbrev pub instance_cache_ttl : Duration
instance_cache_ttl = pos 5000000000

abbrev pub empty_view : ConnectorView
empty_view = record {
  provisioned = false;
  connected = false;
  revoked = false;
  buffered_count = pos 0;
  last_inbound_at = none;
  turn_in_flight = false;
}

abbrev pub view_of : Instance → ConnectorView
view_of i = record {
  provisioned = true;
  connected = i.connected;
  revoked = i.revoked;
  buffered_count = i.buffered_count;
  last_inbound_at = i.last_inbound_at;
  turn_in_flight = i.turn_in_flight;
}

-- the view of one session, from the instances if they are known
abbrev pub connector_view : String → Option (Dict Instance) → ConnectorView
connector_view name none = empty_view
connector_view name (some instances) = elim (lookup name instances) [
  | none ↦ empty_view
  | some i ↦ view_of i
]

-- the facts that a claim and its sandbox show
abbrev pub facts_of : Claim → Option Sandbox → Facts
facts_of claim none = record {
  terminating = claim.terminating;
  has_sandbox = false;
  operating_mode = "";
  ready = false;
  suspended = false;
}
facts_of claim (some b) = record {
  terminating = claim.terminating;
  has_sandbox = true;
  operating_mode = b.operating_mode;
  ready = b.ready;
  suspended = b.suspended;
}

-- "" defaults to Running, as in the CRD
abbrev pub mode_of : Option Sandbox → String
mode_of none = ""
mode_of (some b) = if b.operating_mode == "" then mode_running else b.operating_mode

-- byID[inst.GatewayID] = inst, for each in order
pub by_id_onto : Dict Instance → List Instance → Dict Instance
by_id_onto m [] = m
by_id_onto m (i ∷ is) = by_id_onto (insert i.gateway_id i m) is

unfoldable pub by_id : List Instance → Dict Instance
unfolding by_id_onto
by_id = by_id_onto []

module _ {KS CS AS : Type 0} (m : Manager KS CS AS) where
  -- Sandbox: any error reads as no sandbox
  unfoldable pub sandbox : Claim → Exec (World KS CS AS) (Option Sandbox)
  sandbox claim = do
    r ← attempt (on_k8s (m.k8s.get_sandbox (sandbox_name_of claim)))
    pure (elim r [ ok b ↦ some b | err e ↦ none ])

  -- the rest of Instances after its cache was missed
  unfoldable pub store_instances :
      Result (List Instance) → Exec (World KS CS AS) (Option (Dict Instance))
  unfolding by_id
  store_instances (err e) w = (ok none, w)
  store_instances (ok list) w =
      let (_, w') = now w in
      let t = w.clock.now_at w.clock.reads in
      (ok (some (by_id list)), record w' { instances = some (by_id list); instances_at = t })

  unfoldable pub fetch_instances : Exec (World KS CS AS) (Option (Dict Instance))
  unfolding store_instances
  fetch_instances = do r ← attempt (on_connector m.connector.list_instances); store_instances r

  unfoldable pub cached_or_fetch :
      Option (Dict Instance) → Exec (World KS CS AS) (Option (Dict Instance))
  unfolding fetch_instances
  cached_or_fetch none w = fetch_instances w
  cached_or_fetch (some cached) w =
      (do
        t ← now
        if ltb_ℤ (sub t w.instances_at) instance_cache_ttl
            then pure (some cached)
            else fetch_instances)
        w

  -- Instances: `none` when disabled, throttled or unreachable
  unfoldable pub instances : Exec (World KS CS AS) (Option (Dict Instance))
  instances w = if not m.connector.enabled then (ok none, w) else cached_or_fetch w.instances w

  -- whether a claim asks for the connector, and there is one
  abbrev pub uses_connector : Claim → Bool
  uses_connector claim = annotation anno_connector claim == "true" && m.connector.enabled

  unfoldable pub session_connector : Claim → Exec (World KS CS AS) (Option ConnectorView)
  session_connector claim =
      if uses_connector claim
      then (do known ← instances; pure (some (connector_view claim.name known)))
      else pure none

  unfoldable pub assemble : Claim → Exec (World KS CS AS) Session
  assemble claim = do
    b ← sandbox claim
    v ← session_connector claim
    pure (record {
      id = claim.name;
      state = derive (facts_of claim b);
      operating_mode = mode_of b;
      created_at = claim.created_at;
      ttl_seconds = whole_seconds (effective_ttl m.defaults claim);
      idle_timeout_seconds = whole_seconds (effective_idle_timeout m.defaults claim);
      display_name = annotation anno_display_name claim;
      connector = v;
    })

  unfoldable pub get : String → Exec (World KS CS AS) Session
  get id = do claim ← on_k8s (m.k8s.get_claim id); assemble claim

  assemble_all : List Claim → Exec (World KS CS AS) (List Session)
  assemble_all [] = pure []
  assemble_all (claim ∷ claims) = do s ← assemble claim; rest ← assemble_all claims; pure (s ∷ rest)

  unfoldable pub list : Exec (World KS CS AS) (List Session)
  unfolding assemble_all
  list = do claims ← on_k8s m.k8s.list_claims; assemble_all claims
