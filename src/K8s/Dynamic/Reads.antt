-- ===== src/K8s/Dynamic/Reads.antt =====
-- The reads of the dynamic client, and the view that it has of the cluster.
use hermes_cluster.Base.{
  String, ◌≡◌, refl, true, inl, inr, Option, none, some, [], ◌∷◌, arith, ◌∙◌, ap, not, ◌&&◌, eq_iff,
  ◌==◌,
}
use hermes_cluster.Base.Dict.{lookup}
use hermes_cluster.Base.Errors.{Err, errors_is, not_found}
use hermes_cluster.Base.Exec.{Result, ok, err, Result-cases}
use hermes_cluster.Session.{managed_label}
use hermes_cluster.K8s.{Claim, Sandbox}
use hermes_cluster.K8s.Contract.{View}
use hermes_cluster.K8s.Value.{Value, str, found, at, text_of}
use hermes_cluster.K8s.Unstructured.{
  Accessors, or_empty, bare_claim, claim_from_unstructured, sandbox_from_unstructured,
}
use hermes_cluster.K8s.Unstructured.Access.{Reads}
use hermes_cluster.K8s.Unstructured.Reading.{
  claim_of, claim_from_unstructured-ok, sandbox_from_unstructured-ok,
}
use hermes_cluster.K8s.Dynamic.{
  Resource, DynamicClient, is_managed, managed_claim, get_claim, get_sandbox, value_of,
}
use hermes_cluster.K8s.Dynamic.Server.{Serves, ClaimSchema, label}

abbrev to_option : {A : Type 0} → Result A → Option A
to_option (ok a) = some a
to_option (err e) = none

abbrev pub read_claim : Accessors → Option Value → Option Claim
read_claim access none = none
read_claim access (some u) = to_option (claim_from_unstructured access u)

abbrev pub read_sandbox : Accessors → Option Value → Option Sandbox
read_sandbox access none = none
read_sandbox access (some u) = to_option (sandbox_from_unstructured access u)

-- the objects of a cluster, as the client reads them
abbrev pub view_from : {S : Type 0} → DynamicClient S → (Resource → String → Option Value) → View
view_from c stored = record {
  claim = λ n. read_claim c.access (stored c.claim_gvr n);
  sandbox = λ n. read_sandbox c.access (stored c.sbox_gvr n);
}

abbrev pub view_of :
    {S : Type 0} → DynamicClient S → (S → Resource → String → Option Value) → S → View
view_of c objects s = view_from c (objects s)

-- The objects satisfy their schemas, and the namespace holds no claims but the managed ones.
pub record Sane {S : Type 0} (c : DynamicClient S) (objects : S → Resource → String → Option Value)
    (IsValid : S → Type 0) (s : S) : Type 0 where
  pub valid : IsValid s
  pub managed :
      (n : String) (u : Value)
      → objects s c.claim_gvr n ≡ some u
      → label managed_label u ≡ found (str "true")

marked_passes : (a b : String) → b ≡ "true" → not (a == "" && not (b == "true")) ≡ true
marked_passes a b e = ground (arith, eq_iff b "true")

module _ {S : Type 0} (c : DynamicClient S) where
  pub managed_claim-state :
      (n : String) (u : Value) (r : Result Claim) (s : S) → (managed_claim c n u r s).1 ≡ s
  unfolding managed_claim
  managed_claim-state n u (ok claim) s = ground arith
  managed_claim-state n u (err e) s = refl

  pub get_claim-state :
      (n : String) (s : S) → (get_claim c n s).1 ≡ (c.api.get c.claim_gvr c.namespace n s).1
  unfolding get_claim
  get_claim-state n s = elim (Result-cases (c.api.get c.claim_gvr c.namespace n s).0) [
    | inl (u, e) ↦ ground (
      arith,
      managed_claim-state n u (claim_from_unstructured c.access u)
          (c.api.get c.claim_gvr c.namespace n s).1,
    )
    | inr (e, p) ↦ ground arith
  ]

  pub get_sandbox-state :
      (n : String) (s : S) → (get_sandbox c n s).1 ≡ (c.api.get c.sbox_gvr c.namespace n s).1
  unfolding get_sandbox
  get_sandbox-state n s = ground arith

module _ {S : Type 0} (c : DynamicClient S) {objects : S → Resource → String → Option Value}
    {IsValid : S → Type 0} (serves : Serves c objects IsValid) (reads : Reads c.access) where
  -- A stored claim is read, under its own name.
  pub read_claim-stored :
      (s : S) (n : String) (u : Value)
      → IsValid s
      → objects s c.claim_gvr n ≡ some u
      → (claim_from_unstructured c.access u ≡ ok (claim_of c.access u))
        × ((claim_of c.access u).name ≡ n)
  unfolding bare_claim
  read_claim-stored s n u valid stored =
      let schema = serves.claim_schema s n u valid stored in
      (claim_from_unstructured-ok c.access reads u schema.sandbox, reads.name u n schema.named)

  pub read_sandbox-stored :
      (s : S) (n : String) (u : Value)
      → IsValid s
      → objects s c.sbox_gvr n ≡ some u
      → (b : Sandbox) × (sandbox_from_unstructured c.access u ≡ ok b)
        × (b.name ≡ n)
        × (b.operating_mode ≡ or_empty (text_of (at ("spec" ∷ "operatingMode" ∷ []) (found u))))
  read_sandbox-stored s n u valid stored =
      let schema = serves.sandbox_schema s n u valid stored in
      let (b, read, name, mode) =
        sandbox_from_unstructured-ok c.access reads u schema.mode schema.fqdn schema.selector
          schema.conditions in
      (b, read, name ∙ reads.name u n schema.named, mode)

  -- A claim with the managed label passes the guard.
  pub is_managed-labelled :
      (u : Value) (n : String) (claim : Claim)
      → ClaimSchema n u
      → label managed_label u ≡ found (str "true")
      → is_managed c u claim ≡ true
  unfolding is_managed
  is_managed-labelled u n claim schema h =
      let read : lookup managed_label (c.access.get_labels u) ≡ some "true" =
        reads.label u managed_label schema.labels ∙ ap text_of h in
      marked_passes (value_of managed_label claim.annotations)
        (value_of managed_label (c.access.get_labels u)) (ground arith)

  pub get_claim-ok :
      (n : String) (s : S) (claim : Claim)
      → Sane c objects IsValid s
      → (get_claim c n s).0 ≡ ok claim
      → ((view_of c objects s).claim n ≡ some claim) × (claim.name ≡ n)
  unfolding get_claim
  get_claim-ok n s claim sane h = elim (Result-cases (c.api.get c.claim_gvr c.namespace n s).0) [
    | inl (u, got) ↦
        let stored = serves.get-found c.claim_gvr n s u got in
        let (read, name) = read_claim-stored s n u sane.valid stored in ground arith
    | inr (e, refused) ↦ ground arith
  ]

  pub get_claim-err :
      (n : String) (s : S) (e : Err)
      → Sane c objects IsValid s
      → (get_claim c n s).0 ≡ err e
      → errors_is e not_found ≡ true
      → (view_of c objects s).claim n ≡ none
  unfolding get_claim
  get_claim-err n s e sane h m = elim (Result-cases (c.api.get c.claim_gvr c.namespace n s).0) [
    | inl (u, got) ↦
        let stored = serves.get-found c.claim_gvr n s u got in
        let (read, name) = read_claim-stored s n u sane.valid stored in
        let passes =
          is_managed-labelled u n (claim_of c.access u)
            (serves.claim_schema s n u sane.valid stored) (sane.managed n u stored) in
        ground arith
    | inr (f, refused) ↦
        let foreign = serves.get-foreign c.claim_gvr n s f refused in
        let gone = serves.get-missing c.claim_gvr n s f refused in ground arith
  ]

  pub get_sandbox-ok :
      (n : String) (s : S) (b : Sandbox)
      → Sane c objects IsValid s
      → (get_sandbox c n s).0 ≡ ok b
      → ((view_of c objects s).sandbox n ≡ some b) × (b.name ≡ n)
  unfolding get_sandbox
  get_sandbox-ok n s b sane h = elim (Result-cases (c.api.get c.sbox_gvr c.namespace n s).0) [
    | inl (u, got) ↦
        let stored = serves.get-found c.sbox_gvr n s u got in
        let (b', read, name, mode) = read_sandbox-stored s n u sane.valid stored in ground arith
    | inr (e, refused) ↦ ground arith
  ]
