-- ===== src/K8s/Unstructured/Reading.antt =====
-- Reading back the objects of the agent-sandbox resources.
use hermes_cluster.Base.{String, ◌≡◌, refl, Bool, true, false, ◌⊎◌, inl, inr, List, [], ◌∷◌, arith}
use hermes_cluster.Base.Exec.{ok}
use hermes_cluster.K8s.{Claim, Sandbox}
use hermes_cluster.K8s.Value.{
  Value, str, slice, object, Items, nil, cons, Found, found, missing, Fields, at, text_of, is_text,
  is_slice,
}
use hermes_cluster.K8s.Unstructured.{
  Accessors, or_empty, bare_claim, claim_from_unstructured, read_condition, read_conditions,
  with_conditions, with_selector, with_fqdn, empty_sandbox, sandbox_from_unstructured,
}
use hermes_cluster.K8s.Unstructured.Access.{Reads}

is_text-cases :
    (x : Found) → is_text x ≡ true → ((t : String) × (x ≡ found (str t))) ⊎ (x ≡ missing)
is_text-cases (found (str t)) h = inl (t, refl)
is_text-cases missing h = inr refl
is_text-cases x h = cc

is_slice-cases :
    (x : Found) → is_slice x ≡ true → ((vs : Items) × (x ≡ found (slice vs))) ⊎ (x ≡ missing)
is_slice-cases (found (slice vs)) h = inl (vs, refl)
is_slice-cases missing h = inr refl
is_slice-cases x h = cc

-- the claim that an object of the schema stands for
abbrev pub claim_of : Accessors → Value → Claim
claim_of access u = record (bare_claim access u) {
  sandbox_name = or_empty (text_of (at ("status" ∷ "sandbox" ∷ "name" ∷ []) (found u)));
}

module _ (access : Accessors) (reads : Reads access) (u : Value) where
  -- A nested text or nothing is read.
  nested_string-is_text :
      (path : List String)
      → is_text (at path (found u)) ≡ true
      → (b : Bool) × (access.nested_string u path ≡ ok (or_empty (text_of (at path (found u))), b))
  nested_string-is_text path h = elim (is_text-cases (at path (found u)) h) [
    | inl (t, e) ↦ (true, rw e (reads.string-found u path t e))
    | inr e ↦ (false, rw e (reads.string-missing u path e))
  ]

  pub claim_from_unstructured-ok :
      is_text (at ("status" ∷ "sandbox" ∷ "name" ∷ []) (found u)) ≡ true
      → claim_from_unstructured access u ≡ ok (claim_of access u)
  unfolding claim_from_unstructured
  claim_from_unstructured-ok h =
      let path : List String = "status" ∷ "sandbox" ∷ "name" ∷ [] in
      elim (is_text-cases (at path (found u)) h) [
        | inl (t, e) ↦ rw (e, claim_from_unstructured, reads.string-found u path t e)
        | inr e ↦
            rw (e, claim_from_unstructured, reads.string-missing u path e)
              (unfold bare_claim in refl)
      ]

read_condition-kept :
    (access : Accessors) (cond : Fields) (s : Sandbox)
    → ((read_condition access cond s).name ≡ s.name)
      × ((read_condition access cond s).operating_mode ≡ s.operating_mode)
unfolding read_condition
read_condition-kept access cond s = ground arith

-- Reading the conditions leaves the name and the mode.
read_conditions-kept :
    (access : Accessors) (conditions : Items) (s : Sandbox)
    → ((read_conditions access conditions s).name ≡ s.name)
      × ((read_conditions access conditions s).operating_mode ≡ s.operating_mode)
unfolding read_conditions
read_conditions-kept access nil s = (refl, refl)
read_conditions-kept access (cons (object cond) rest) s =
    let later = read_conditions-kept access rest (read_condition access cond s) in
    ground (arith, read_condition-kept access cond s)
read_conditions-kept access (cons v rest) s = read_conditions-kept access rest s

module _ (access : Accessors) (reads : Reads access) (u : Value) where
  reads_conditions :
      (s : Sandbox)
      → is_slice (at ("status" ∷ "conditions" ∷ []) (found u)) ≡ true
      → (b : Sandbox) × (with_conditions access u s ≡ ok b)
        × (b.name ≡ s.name)
        × (b.operating_mode ≡ s.operating_mode)
  unfolding with_conditions
  reads_conditions s h =
      let path : List String = "status" ∷ "conditions" ∷ [] in
      elim (is_slice-cases (at path (found u)) h) [
        | inl (vs, e) ↦ (
          read_conditions access vs s,
          rw (with_conditions, reads.slice-found u path vs e),
          (read_conditions-kept access vs s).0,
          (read_conditions-kept access vs s).1,
        )
        | inr e ↦ (
          s,
          rw (with_conditions, reads.slice-missing u path e) (unfold read_conditions in refl),
          refl,
          refl,
        )
      ]

  pub sandbox_from_unstructured-ok :
      is_text (at ("spec" ∷ "operatingMode" ∷ []) (found u)) ≡ true
      → is_text (at ("status" ∷ "serviceFQDN" ∷ []) (found u)) ≡ true
      → is_text (at ("status" ∷ "selector" ∷ []) (found u)) ≡ true
      → is_slice (at ("status" ∷ "conditions" ∷ []) (found u)) ≡ true
      → (b : Sandbox) × (sandbox_from_unstructured access u ≡ ok b)
        × (b.name ≡ access.get_name u)
        × (b.operating_mode ≡ or_empty (text_of (at ("spec" ∷ "operatingMode" ∷ []) (found u))))
  unfolding sandbox_from_unstructured
  sandbox_from_unstructured-ok m f e c =
      let (_, mode) = nested_string-is_text access reads u ("spec" ∷ "operatingMode" ∷ []) m in
      let (_, fqdn) = nested_string-is_text access reads u ("status" ∷ "serviceFQDN" ∷ []) f in
      let (_, selector) = nested_string-is_text access reads u ("status" ∷ "selector" ∷ []) e in
      let s = record (empty_sandbox (access.get_name u)) {
        operating_mode = or_empty (text_of (at ("spec" ∷ "operatingMode" ∷ []) (found u)));
        service_fqdn = or_empty (text_of (at ("status" ∷ "serviceFQDN" ∷ []) (found u)));
        selector = or_empty (text_of (at ("status" ∷ "selector" ∷ []) (found u)));
      } in
      let (b, read, name, kept) = reads_conditions s c in
      (
        b,
        rw (sandbox_from_unstructured, mode, with_fqdn, fqdn, with_selector, selector) read,
        name,
        kept,
      )
