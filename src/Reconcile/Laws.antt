-- ===== src/Reconcile/Laws.antt =====
-- What the reconcile report lists (reconcile/reconcile.go).
use mathlib.Core.List.{Memᴰ}
use hermes_cluster.Base.{
  String, ◌≡◌, ◌↔◌, inl, inr, refl, sym, subst, true, not, ◌&&◌, none, some, List, [], ◌∷◌, ◌==◌,
  eq_iff, is_some, arith, Bool-cases,
}
use hermes_cluster.Base.Dict.{Dict, lookup, keys, contains, contains-keys}
use hermes_cluster.Clock.{Time}
use hermes_cluster.Session.{anno_connector}
use hermes_cluster.K8s.{Claim}
use hermes_cluster.Connector.{Instance}
use hermes_cluster.Lifecycle.{annotation}
use hermes_cluster.Reconcile.{
  Report, Store, lacks_instance, claims_without, unclaimed, claim_names, update, load,
}

-- Some claim of the list has the name and wants a connector instance.
abbrev pub Wants : List Claim → String → Type 0
Wants claims n = (c : Claim) × Memᴰ c claims × (c.name ≡ n) × (annotation anno_connector c ≡ "true")

contains-unclaimed :
    (claimed ids : List String) (n : String)
    → contains (unclaimed claimed ids) n ≡ (contains ids n && not (contains claimed n))
unfolding unclaimed
contains-unclaimed claimed [] n = refl
contains-unclaimed claimed (id ∷ ids) n =
    ground (arith, eq_iff id n, contains-unclaimed claimed ids n)

claims_without_sound :
    (instances : Dict Instance) (claims : List Claim) (n : String)
    → contains (claims_without instances claims) n ≡ true
    → Wants claims n × (lookup n instances ≡ none)
unfolding claims_without
claims_without_sound instances [] n h = absurd (ground arith)
claims_without_sound instances (c ∷ claims) n h =
    elim (Bool-cases (c.name == n && lacks_instance instances c)) [
      | inl own ↦
          let same : c.name ≡ n = ground (arith, eq_iff c.name n) in
          (
            (c, Memᴰ.head refl, same, ground (arith, eq_iff (annotation anno_connector c) "true")),
            ground arith,
          )
      | inr other ↦
          let ((d, member, same, wants), lacks) =
            claims_without_sound instances claims n (ground (arith, eq_iff c.name n)) in
          ((d, Memᴰ.tail member, same, wants), lacks)
    ]

claims_without_complete :
    (instances : Dict Instance) (claims : List Claim) (c : Claim)
    → Memᴰ c claims
    → annotation anno_connector c ≡ "true"
    → lookup c.name instances ≡ none
    → contains (claims_without instances claims) c.name ≡ true
unfolding claims_without
claims_without_complete instances [] c member wants lacks = elim member [ ]
claims_without_complete instances (d ∷ claims) c (Memᴰ.head same) wants lacks =
    rw (sym same)
      (ground (arith, eq_iff c.name c.name, eq_iff (annotation anno_connector c) "true"))
claims_without_complete instances (d ∷ claims) c (Memᴰ.tail member) wants lacks =
    ground (arith, claims_without_complete instances claims c member wants lacks)

contains-claim_names :
    (claims : List Claim) (n : String)
    → (contains (claim_names claims) n ≡ true)
    → (c : Claim) × Memᴰ c claims × (c.name ≡ n)
contains-claim_names [] n h = absurd (ground arith)
contains-claim_names (c ∷ claims) n h = elim (Bool-cases (c.name == n)) [
  | inl own ↦ (c, Memᴰ.head refl, (eq_iff c.name n).0 own)
  | inr other ↦
      let (d, member, same) = contains-claim_names claims n (ground arith) in
      (d, Memᴰ.tail member, same)
]

claim_names_complete :
    (claims : List Claim) (c : Claim) → Memᴰ c claims → contains (claim_names claims) c.name ≡ true
claim_names_complete [] c member = elim member [ ]
claim_names_complete (d ∷ claims) c (Memᴰ.head same) =
    rw (sym same) (ground (arith, eq_iff c.name c.name))
claim_names_complete (d ∷ claims) c (Memᴰ.tail member) =
    ground (arith, claim_names_complete claims c member)

-- After an update with a known list of instances, a name is reported as a claim without instance
-- exactly when some claim of that name wants the connector and the connector lists no such
-- instance, and as an instance without claim exactly when the connector lists it and no claim has
-- the name.
pub update_iff :
    (now : Time) (claims : List Claim) (instances : Dict Instance) (store : Store) (n : String)
    → (r : Report) × (load (update now claims (some instances) store) ≡ (some r, true))
      × ((contains r.claims_without_instances n ≡ true)
          ↔ (Wants claims n × (lookup n instances ≡ none)))
      × ((contains r.instances_without_claims n ≡ true) ↔ (
          (is_some (lookup n instances) ≡ true) × ¬ ((c : Claim) × Memᴰ c claims × (c.name ≡ n))))
unfolding update load
update_iff now claims instances store n = (
  _,
  refl,
  (
    claims_without_sound instances claims n,
    λ ((c, member, same, wants), lacks).
        subst (λ x. contains (claims_without instances claims) x ≡ true) same
          (claims_without_complete instances claims c member wants (rw same lacks)),
  ),
  (
    λ h. (
      ground (
        arith,
        contains-unclaimed (claim_names claims) (keys instances) n,
        contains-keys n instances,
      ),
      λ (c, member, same). ground (
        arith,
        contains-unclaimed (claim_names claims) (keys instances) n,
        claim_names_complete claims c member,
        same,
      ),
    ),
    λ (listed, none_claims). elim (Bool-cases (contains (claim_names claims) n)) [
      | inl claimed ↦ absurd (none_claims (contains-claim_names claims n claimed))
      | inr free ↦ ground (
        arith,
        contains-unclaimed (claim_names claims) (keys instances) n,
        contains-keys n instances,
      )
    ],
  ),
)
