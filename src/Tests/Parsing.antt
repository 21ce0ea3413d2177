-- ===== src/Tests/Parsing.antt =====
-- Runs of the round trips of label selectors and of claim objects.
use hermes_cluster.Base.{String, ◌≡◌, refl, false, none, List, [], ◌∷◌, arith, eq_iff}
use hermes_cluster.Base.Dict.{lookup}
use hermes_cluster.Base.Exec.{ok}
use hermes_cluster.Session.{managed_label, anno_ttl_seconds}
use hermes_cluster.K8s.{Claim, ClaimSpec}
use hermes_cluster.K8s.Value.{get_field}
use hermes_cluster.K8s.Unstructured.{new_claim_object, claim_from_unstructured}
use hermes_cluster.K8s.Unstructured.RoundTrip.{claim_from_unstructured-new_claim_object}
use hermes_cluster.K8s.Dynamic.Exposure.{parse_selector}
use hermes_cluster.K8s.Dynamic.Selector.{
  IsPlain, AllPlain, selector_text, latest, parse_selector-text,
}
use hermes_cluster.Tests.Cluster.{accessors, accessors-Reads}

abbrev pairs : List (String × String)
pairs = ("app", "hermes") ∷ ("session", "s-dc-7") ∷ ("app", "agent") ∷ []

hermes-IsPlain : IsPlain ("app", "hermes")
hermes-IsPlain = record {
  named = λ same. ground (arith, eq_iff "app" "");
  key_comma = refl;
  key_equals = refl;
  key_space = refl;
  value_comma = refl;
  value_space = refl;
}

session-IsPlain : IsPlain ("session", "s-dc-7")
session-IsPlain = record {
  named = λ same. ground (arith, eq_iff "session" "");
  key_comma = refl;
  key_equals = refl;
  key_space = refl;
  value_comma = refl;
  value_space = refl;
}

agent-IsPlain : IsPlain ("app", "agent")
agent-IsPlain = record {
  named = λ same. ground (arith, eq_iff "app" "");
  key_comma = refl;
  key_equals = refl;
  key_space = refl;
  value_comma = refl;
  value_space = refl;
}

pairs-AllPlain : AllPlain pairs
pairs-AllPlain = (hermes-IsPlain, (session-IsPlain, (agent-IsPlain, tt)))

parse_selector-text_example :
    get_field "app" (parse_selector (selector_text pairs)) ≡ latest "app" pairs none
parse_selector-text_example = parse_selector-text "app" pairs pairs-AllPlain

abbrev spec : ClaimSpec
spec = record {
  name = "s-dc-7";
  warm_pool = "default";
  annotations = (managed_label, "true") ∷ (anno_ttl_seconds, "600") ∷ [];
}

claim_from_unstructured-new_claim_object_example :
    (c : Claim) × (claim_from_unstructured accessors
        (new_claim_object "v1" "agents" spec managed_label)
      ≡ ok c)
    × (c.name ≡ "s-dc-7")
    × ((key : String) → lookup key c.annotations ≡ lookup key spec.annotations)
    × (c.terminating ≡ false)
    × (c.sandbox_name ≡ "")
claim_from_unstructured-new_claim_object_example =
    claim_from_unstructured-new_claim_object accessors accessors-Reads "v1" "agents" managed_label
      spec
