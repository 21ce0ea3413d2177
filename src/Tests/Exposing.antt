-- ===== src/Tests/Exposing.antt =====
-- Runs of the theorems on the client of a real cluster: an exposure, and a claim of someone else's.
use hermes_cluster.Base.{◌≡◌, ◌≢◌, refl, false, none, some, [], ◌==◌, if◌then◌else◌}
use hermes_cluster.Base.Int.{pos}
use hermes_cluster.Base.Dict.{lookup}
use hermes_cluster.Base.Errors.{sentinel, wrap, not_found}
use hermes_cluster.Base.Exec.{err}
use hermes_cluster.K8s.{Claim, ExposureSpec}
use hermes_cluster.K8s.Value.{Value, str, object, end, field, get_field, child, or_missing}
use hermes_cluster.K8s.Unstructured.{bare_claim, claim_from_unstructured}
use hermes_cluster.K8s.Dynamic.Exposure.{dynamic_client, ensure_exposure, service_object}
use hermes_cluster.K8s.Dynamic.Exposed.{IsPresent, ensure_exposure-exposes}
use hermes_cluster.Clock.{zero_time}
use hermes_cluster.Lifecycle.{Manager, World}
use hermes_cluster.Lifecycle.Control.{wake, restart, decommission}
use hermes_cluster.Lifecycle.Control.Unmanaged.{on_cluster, after_read, unmanaged-untouched}
use hermes_cluster.Tests.{accepting, clock_at, defaults}
use hermes_cluster.Tests.Cluster.{accessors}
use hermes_cluster.Tests.Cluster.Store.{Cluster, api, options, objects, create_named, get, admits}
use hermes_cluster.Tests.Cluster.Serving.{server, server-Serves}

abbrev bare : Cluster
bare = λ resource name. none

abbrev spec : ExposureSpec
spec = record {
  session_name = "s-dc-7";
  owner_uid = "u";
  selector = "app=hermes,session=s-dc-7";
  port = pos 9119;
  host = "";
  ingress_class = "";
  tls_secret = "";
  deny_service = "";
}

ensure_exposure-exposes_example :
    (spec.selector ≢ "")
    × IsPresent objects server.svc_gvr "s-dc-7" bare (ensure_exposure server spec bare).1
    × (spec.host ≢ ""
        → IsPresent objects server.ing_gvr "s-dc-7" bare (ensure_exposure server spec bare).1)
unfolding ensure_exposure create_named service_object get_field child admits
ensure_exposure-exposes_example =
    ensure_exposure-exposes api accessors options (server-Serves options) spec bare refl

-- a claim that bears no mark of the manager
abbrev guest : Value
guest = object (field "metadata" (object (field "name" (str "guest") end)) end)

abbrev guest_claim : Claim
guest_claim = record {
  name = "guest";
  uid = "";
  created_at = zero_time;
  annotations = [];
  terminating = false;
  sandbox_name = "";
}

abbrev hosting : Cluster
hosting = λ resource name. if resource == "sandboxclaims" then some guest else none

abbrev manager : Manager Cluster Unit Unit
manager = record {
  k8s = dynamic_client server;
  connector = accepting;
  agent = none;
  defaults = defaults;
}

abbrev world : World Cluster Unit Unit
world = record {
  k8s_state = hosting;
  connector_state = tt;
  agent_state = tt;
  clock = clock_at 0;
  random_at = λ i. [];
  random_reads = 0;
  instances = none;
  instances_at = zero_time;
}

unmanaged-untouched_example :
    (wake (on_cluster server manager) "guest" world
      ≡ (err (wrap "guest" (sentinel not_found)), after_read server "guest" world))
    × (restart (on_cluster server manager) "guest" world
        ≡ (err (wrap "guest" (sentinel not_found)), after_read server "guest" world))
    × (decommission (on_cluster server manager) "guest" world
        ≡ (err (wrap "guest" (sentinel not_found)), after_read server "guest" world))
unfolding get claim_from_unstructured bare_claim get_field child or_missing lookup
unmanaged-untouched_example =
    unmanaged-untouched server manager "guest" world guest guest_claim refl refl refl refl
