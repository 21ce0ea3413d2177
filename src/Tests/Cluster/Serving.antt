-- ===== src/Tests/Cluster/Serving.antt =====
-- The small API server behaves as documented.
use text.Mathlib.TextPositions.{eq_refl}
use hermes_cluster.Base.{
  String, ◌≡◌, refl, true, false, ◌&&◌, ◌⊎◌, inl, inr, Option, none, some, arith, ◌==◌, ap,
  Bool-cases, Option-cases,
}
use mathlib.Core.Path.{fun_ext}
use hermes_cluster.Base.Errors.{Err, errors_is, not_found}
use hermes_cluster.Base.Exec.{ok, err, Result-cases}
use hermes_cluster.K8s.Value.{Value, missing, text_of}
use hermes_cluster.K8s.Value.Merge.{merge}
use hermes_cluster.K8s.Unstructured.Access.{meta}
use hermes_cluster.K8s.Dynamic.{Resource, Options, DynamicClient, new_with_interface}
use hermes_cluster.K8s.Dynamic.Server.{Serves, Accepted, Merged}
use hermes_cluster.K8s.Contract.{Contract}
use hermes_cluster.K8s.Dynamic.Exposure.{dynamic_client}
use hermes_cluster.K8s.Dynamic.Reads.{Sane, view_of}
use hermes_cluster.K8s.Dynamic.Sound.{dynamic_client-Contract}
use hermes_cluster.Tests.Cluster.{accessors, accessors-Reads}
use hermes_cluster.Tests.Cluster.Store.{
  Cluster, admits, put, is_missing, create_named, patch, delete, get, says, api, options, objects,
  IsValid, put-IsValid, claim_schema, sandbox_schema, some_injective, is_missing-missing,
}

abbrev pub server : DynamicClient Cluster
server = new_with_interface api accessors options

merge-Merged : (doc u : Value) → Merged doc u (merge u doc)
merge-Merged doc u = record { outside = λ k p h. refl; inside = λ k p h. refl }

both_false :
    (g h n j : String) → ((g == h) ≡ false) ⊎ ((n == j) ≡ false) → (g == h && n == j) ≡ false
both_false g h n j (inl d) = ground arith
both_false g h n j (inr d) = ground arith

module _ (ns : String) (g : Resource) (n : String) (s : Cluster) where
  get-laws :
      ((get g ns n s).1 ≡ s)
      × ((u : Value) → (get g ns n s).0 ≡ ok u → s g.resource n ≡ some u)
      × ((e : Err)
          → (get g ns n s).0 ≡ err e
          → (s g.resource n ≡ none) × (errors_is e not_found ≡ false))
  unfolding get errors_is
  get-laws = (ground arith, (λ u h. ground arith), (λ e h. ground arith))

  delete-IsValid : IsValid s → IsValid (delete g ns n s).1
  unfolding delete
  delete-IsValid valid = elim (Option-cases (s g.resource n)) [
    | inl gone ↦ rw (delete, gone) valid
    | inr (u, there) ↦ rw (delete, there) (put-IsValid g.resource n none s (λ v h. cc) valid)
  ]

  delete-gone : (delete g ns n s).0 ≡ ok tt → (delete g ns n s).1 g.resource n ≡ none
  unfolding delete put
  delete-gone h = ground (arith, eq_refl g.resource, eq_refl n)

  delete-effect :
      ((delete g ns n s).1 g.resource n ≡ s g.resource n)
      ⊎ ((delete g ns n s).1 g.resource n ≡ none)
  unfolding delete put
  delete-effect = ground (arith, eq_refl g.resource, eq_refl n)

  delete-others :
      (j : String) → (n == j) ≡ false → (delete g ns n s).1 g.resource j ≡ s g.resource j
  unfolding delete put
  delete-others j d = ground arith

  delete-missing :
      (e : Err)
      → (delete g ns n s).0 ≡ err e
      → (s g.resource n ≡ none) × ((delete g ns n s).1 ≡ s) × (errors_is e not_found ≡ false)
  unfolding delete put errors_is
  delete-missing e h = ground arith

  module _ (doc : Value) where
    patch-IsValid : IsValid s → IsValid (patch g ns n doc s).1
    unfolding patch
    patch-IsValid valid = elim (Option-cases (s g.resource n)) [
      | inl gone ↦ rw (patch, gone) valid
      | inr (u, there) ↦ elim (Bool-cases (admits g.resource n (merge u doc))) [
        | inl fits ↦
            rw (patch, there, fits)
              (put-IsValid g.resource n (some (merge u doc)) s
                (λ v h. rw (← some_injective (merge u doc) v h) fits) valid)
        | inr unfit ↦ rw (patch, there, unfit) valid
      ]
    ]

    patch-merged :
        (r : Value)
        → (patch g ns n doc s).0 ≡ ok r
        → (u : Value) × (s g.resource n ≡ some u)
          × ((patch g ns n doc s).1 g.resource n ≡ some (merge u doc))
    unfolding patch put
    patch-merged r h = elim (Option-cases (s g.resource n)) [
      | inl gone ↦ absurd (ground arith)
      | inr (u, there) ↦ (u, there, ground (arith, eq_refl g.resource, eq_refl n))
    ]

    patch-kept : (e : Err) → (patch g ns n doc s).0 ≡ err e → (patch g ns n doc s).1 ≡ s
    unfolding patch put
    patch-kept e h = ground arith

    patch-others :
        (r j : String) → (g.resource == r && n == j) ≡ false → (patch g ns n doc s).1 r j ≡ s r j
    unfolding patch put
    patch-others r j d = ground arith

module _ (g : Resource) (u : Value) (s : Cluster) where
  create-IsValid : (name : Option String) → IsValid s → IsValid (create_named g u name s).1
  unfolding create_named
  create-IsValid none valid = valid
  create-IsValid (some n) valid = elim (Option-cases (s g.resource n)) [
    | inr (old, there) ↦ rw (create_named, there) valid
    | inl free ↦
        elim (Bool-cases (admits g.resource n u && is_missing (meta "deletionTimestamp" u))) [
          | inl fits ↦
              rw (create_named, free, fits)
                (put-IsValid g.resource n (some u) s
                  (λ v h. rw (← some_injective u v h) (ground arith)) valid)
          | inr unfit ↦ rw (create_named, free, unfit) valid
        ]
  ]

  create-done :
      (n : String) (r : Value)
      → (create_named g u (some n) s).0 ≡ ok r
      → (s g.resource n ≡ none)
        × ((create_named g u (some n) s).1 g.resource n ≡ some u)
        × (meta "deletionTimestamp" u ≡ missing)
  unfolding create_named put
  create-done n r h =
      let absent = is_missing-missing (meta "deletionTimestamp" u) in
      ground (arith, eq_refl g.resource, eq_refl n)

  create-kept :
      (n : String) (e : Err)
      → (create_named g u (some n) s).0 ≡ err e
      → (create_named g u (some n) s).1 ≡ s
  unfolding create_named put
  create-kept n e h = ground arith

  create-others :
      (n r j : String)
      → (g.resource == r && n == j) ≡ false
      → (create_named g u (some n) s).1 r j ≡ s r j
  unfolding create_named put
  create-others n r j d = ground arith

  create-exists :
      (n : String) (e : Err)
      → (create_named g u (some n) s).0 ≡ err e
      → says 409 e ≡ true
      → (v : Value) × (s g.resource n ≡ some v)
  unfolding create_named
  create-exists n e h m = elim (Option-cases (s g.resource n)) [
    | inl free ↦ absurd (ground arith)
    | inr there ↦ there
  ]

accepted : (u : Value) → meta "deletionTimestamp" u ≡ missing → Accepted u u
accepted u live = record { labels = λ k. refl; annotations = λ k. refl; not_deleted = live }

created :
    (g : Resource) (u : Value) (s : Cluster) (n : String)
    → ((create_named g u (some n) s).1 g.resource n ≡ s g.resource n)
      ⊎ ((v : Value) × ((create_named g u (some n) s).1 g.resource n ≡ some v) × Accepted u v)
created g u s n = elim (Result-cases (create_named g u (some n) s).0) [
  | inl (r, done) ↦
      let (_, after, live) = create-done g u s n r done in inr (u, after, accepted u live)
  | inr (e, refused) ↦ inl (ap (λ t. t g.resource n) (create-kept g u s n e refused))
]

create-elsewhere :
    (g : Resource) (u : Value) (s : Cluster) (h : Resource) (name : Option String)
    → (g.resource == h.resource) ≡ false
    → objects (create_named g u name s).1 h ≡ objects s h
create-elsewhere g u s h none d = unfold create_named in refl
create-elsewhere g u s h (some n) d =
    fun_ext (λ j. create-others g u s n h.resource j (both_false g.resource h.resource n j (inl d)))

patched :
    (ns : String) (g : Resource) (n : String) (s : Cluster) (doc : Value)
    → ((patch g ns n doc s).1 g.resource n ≡ s g.resource n)
      ⊎ ((u v : Value) × (s g.resource n ≡ some u)
          × ((patch g ns n doc s).1 g.resource n ≡ some v)
          × Merged doc u v)
patched ns g n s doc = elim (Result-cases (patch g ns n doc s).0) [
  | inl (r, done) ↦
      let (u, before, after) = patch-merged ns g n s doc r done in
      inr (u, merge u doc, before, after, merge-Merged doc u)
  | inr (e, refused) ↦ inl (ap (λ t. t g.resource n) (patch-kept ns g n s doc e refused))
]

pub server-Serves :
    (opts : Options) → Serves (new_with_interface api accessors opts) objects IsValid
server-Serves opts = record {
  claim_schema = λ s n u valid h. claim_schema n u (valid.claims n u h);
  sandbox_schema = λ s n u valid h. sandbox_schema n u (valid.sandboxes n u h);
  get-valid = λ g n s valid. rw (get-laws opts.namespace g n s).0 valid;
  get-objects = λ g n s. ap objects (get-laws opts.namespace g n s).0;
  get-found = λ g n s u h. (get-laws opts.namespace g n s).1 u h;
  get-missing = λ g n s e h m. ((get-laws opts.namespace g n s).2 e h).0;
  get-foreign = λ g n s e h. ((get-laws opts.namespace g n s).2 e h).1;
  list-valid = λ g o s valid. valid;
  list-objects = λ g o s. refl;
  create-IsValid = λ g u s valid. create-IsValid g u s (text_of (meta "name" u)) valid;
  create-fresh = λ g n u r s named h. (create-done g u s n r (rw named at h)).0;
  create-stored = λ g n u r s named h.
      let (_, after, live) = create-done g u s n r (rw named at h) in
      (u, rw named after, accepted u live);
  create-effect = λ g n u s named. rw named (created g u s n);
  create-others = λ g n j u s named d.
      rw named (create-others g u s n g.resource j (both_false g.resource g.resource n j (inr d)));
  create-elsewhere = λ g h u s d. create-elsewhere g u s h (text_of (meta "name" u)) d;
  create-exists = λ g n u s e named h m.
      let (v, before) = create-exists g u s n e (rw named at h) m in
      (v, before, rw named (rw (create-kept g u s n e (rw named at h)) before));
  delete-IsValid = λ g n s valid. delete-IsValid opts.namespace g n s valid;
  delete-gone = λ g n s h. delete-gone opts.namespace g n s h;
  delete-effect = λ g n s. delete-effect opts.namespace g n s;
  delete-others = λ g n j s d. delete-others opts.namespace g n s j d;
  delete-missing = λ g n s e h m.
      let (gone, same, _) = delete-missing opts.namespace g n s e h in (gone, ap objects same);
  delete-foreign = λ g n s e h. (delete-missing opts.namespace g n s e h).2;
  patch-IsValid = λ g n doc s valid. patch-IsValid opts.namespace g n s doc valid;
  patch-merged = λ g n doc r s h.
      let (u, before, after) = patch-merged opts.namespace g n s doc r h in
      (u, merge u doc, before, after, merge-Merged doc u);
  patch-effect = λ g n doc s. patched opts.namespace g n s doc;
  patch-others = λ g n j doc s d.
      patch-others opts.namespace g n s doc g.resource j
        (both_false g.resource g.resource n j (inr d));
  patch-elsewhere = λ g h n doc s d. fun_ext (λ j.
      patch-others opts.namespace g n s doc h.resource j
        (both_false g.resource h.resource n j (inl d)));
}

dynamic_client-Contract_example :
    Contract (dynamic_client server) (view_of server objects) (Sane server objects IsValid)
dynamic_client-Contract_example =
    dynamic_client-Contract api accessors options (server-Serves options) accessors-Reads
