-- ===== src/K8s/Fake/Sound.antt =====
-- The in-memory client does what the rest of the program relies on.
use hermes_cluster.Base.{String, ◌≡◌, refl, Option, some, arith, ◌==◌, ap, Option-cases, inl, inr}
use hermes_cluster.Base.Dict.{Dict, lookup, lookup-insert}
use hermes_cluster.Base.Exec.{ok}
use hermes_cluster.K8s.{Claim, Sandbox}
use hermes_cluster.K8s.Contract.{IsPatched, Contract}
use hermes_cluster.K8s.Fake.{
  Fake, merge, new_claim, patch_claim_annotations, patch_sandbox_operating_mode, fake_client, now,
}
use hermes_cluster.Session.{mode_suspended, mode_running}
use hermes_cluster.K8s.Fake.Reads.{
  Sane, view, get_claim-state, get_sandbox-state, get_claim-found, get_sandbox-found,
  get_claim-missing, lookup-copy, lookup-merge,
}
use hermes_cluster.K8s.Fake.Writes.{
  list_claims-state, ensure_exposure-Sane, ensure_exposure-view, delete_claim-others,
  create_claim-Sane, create_claim-fresh, create_claim-stored, delete_claim-Sane, delete_claim-gone,
  delete_claim-missing, patch_claim_annotations-Sane, patch_claim_annotations-others,
  patch_claim_annotations-sandboxes, patch_sandbox_operating_mode-Sane,
  patch_sandbox_operating_mode-others, patch_sandbox_operating_mode-claims,
}
use text.Mathlib.TextPositions.{eq_refl}

merged : Dict (Option String) → Claim → Claim
merged patch c = record c { annotations = merge patch c.annotations }

merged-IsPatched : (patch : Dict (Option String)) (c : Claim) → IsPatched patch c (merged patch c)
unfolding merged
merged-IsPatched patch c = record {
  name = refl;
  created_at = refl;
  terminating = refl;
  sandbox_name = refl;
  annotation = λ k. lookup-merge k patch c.annotations;
}

patch-IsPatched :
    (n : String) (patch : Dict (Option String)) (f : Fake)
    → (patch_claim_annotations n patch f).0 ≡ ok tt
    → (c d : Claim) × (lookup n f.claims ≡ some c)
      × (lookup n (patch_claim_annotations n patch f).1.claims ≡ some d)
      × IsPatched patch c d
patch-IsPatched n patch f h = elim (Option-cases (lookup n f.claims)) [
  | inl missing ↦ absurd (unfold patch_claim_annotations in ground arith)
  | inr (c, found) ↦ (
    c,
    merged patch c,
    found,
    (unfold patch_claim_annotations merged in
        ground (
          arith,
          eq_refl n,
          lookup-insert n n (record c { annotations = merge patch c.annotations }) f.claims,
        )),
    merged-IsPatched patch c,
  )
]

switched : String → Fake → Sandbox → Sandbox
switched mode f b = record b {
  operating_mode = mode;
  suspended = mode == mode_suspended;
  ready = mode == mode_running;
  ready_changed = now f;
}

switched_sandbox :
    (n mode : String) (f : Fake)
    → (patch_sandbox_operating_mode n mode f).0 ≡ ok tt
    → (b : Sandbox) × (lookup n (patch_sandbox_operating_mode n mode f).1.sandboxes ≡ some b)
      × (b.operating_mode ≡ mode)
switched_sandbox n mode f h = elim (Option-cases (lookup n f.sandboxes)) [
  | inl missing ↦ absurd (unfold patch_sandbox_operating_mode in ground arith)
  | inr (b, found) ↦ (
    switched mode f b,
    (unfold patch_sandbox_operating_mode switched in
        ground (arith, eq_refl n, lookup-insert n n (switched mode f b) f.sandboxes)),
    (unfold switched in refl),
  )
]

-- The in-memory client keeps the contract, from any state in good order.
pub fake_client-Contract : Contract fake_client view Sane
fake_client-Contract = record {
  get_claim-Sane = λ n s h. rw get_claim-state h;
  get_claim-view = λ n s h. ap view (get_claim-state n s);
  get_claim-ok =
      λ n s c h e. let found = get_claim-found n s c e in (found, h.claim_names n c found);
  get_claim-err = λ n s e h r m. get_claim-missing n s e h r m;
  get_sandbox-Sane = λ n s h. rw get_sandbox-state h;
  get_sandbox-view = λ n s h. ap view (get_sandbox-state n s);
  get_sandbox-ok =
      λ n s b h e. let found = get_sandbox-found n s b e in (found, h.sandbox_names n b found);
  list_claims-Sane = λ s h. rw list_claims-state h;
  list_claims-view = λ s h. ap view (list_claims-state s);
  ensure_exposure-Sane = λ spec s h. ensure_exposure-Sane spec s h;
  ensure_exposure-view = λ spec s h. ensure_exposure-view spec s;
  create_claim-Sane = λ spec s h. create_claim-Sane spec s h;
  create_claim-fresh = λ spec s h e. create_claim-fresh spec s e;
  create_claim-stored = λ spec s h e. (
    new_claim spec s,
    ground (arith, create_claim-stored spec s spec.name e, eq_refl spec.name),
    (unfold new_claim in refl),
    (unfold new_claim in refl),
    (unfold new_claim in λ k. lookup-copy k spec.annotations),
  );
  create_claim-others = λ spec s j h e d. ground (arith, create_claim-stored spec s j e);
  delete_claim-Sane = λ n s h. delete_claim-Sane n s h;
  delete_claim-ok = λ n s j h e. delete_claim-gone n s j e;
  delete_claim-err =
      λ n s e h r m. let (gone, same) = delete_claim-missing n s e h r m in (gone, ap view same);
  delete_claim-others = λ n s j h d. delete_claim-others n s j d;
  patch_claim_annotations-Sane = λ n patch s h. patch_claim_annotations-Sane n s patch h;
  patch_claim_annotations-ok = λ n patch s h e. patch-IsPatched n patch s e;
  patch_claim_annotations-others = λ n patch s j h d. patch_claim_annotations-others n s patch j d;
  patch_claim_annotations-sandbox =
      λ n patch s h. ap (λ m k. lookup k m) (patch_claim_annotations-sandboxes n s patch);
  patch_sandbox_operating_mode-Sane = λ n mode s h. patch_sandbox_operating_mode-Sane n s mode h;
  patch_sandbox_operating_mode-ok = λ n mode s h e. switched_sandbox n mode s e;
  patch_sandbox_operating_mode-others =
      λ n mode s j h d. patch_sandbox_operating_mode-others n s mode j d;
  patch_sandbox_operating_mode-claim =
      λ n mode s h. ap (λ m k. lookup k m) (patch_sandbox_operating_mode-claims n s mode);
}
