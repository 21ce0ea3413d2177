-- ===== src/Lifecycle/Frame.antt =====
-- What the methods of the manager leave alone of the other claims (lifecycle/manager.go), for any
-- client that keeps the contract.
use hermes_cluster.Base.{String, ◌≡◌, refl, ◌∙◌, ap, arith, false, Option, inl, inr, ◌==◌}
use hermes_cluster.Base.Dict.{Dict}
use hermes_cluster.Base.Exec.{Exec, pure, continue, Result-cases, ◌>>=◌, ◌>>◌}
use hermes_cluster.Base.Frame.{Preorder, Within, pure-Within, bind-Within, if-Within}
use hermes_cluster.Session.{mode_running}
use hermes_cluster.K8s.{Claim, ExposureSpec}
use hermes_cluster.K8s.Contract.{View, Contract}
use hermes_cluster.Lifecycle.{Manager, World, sandbox_name_of, on_k8s}
use hermes_cluster.Lifecycle.Read.{sandbox, instances}
use hermes_cluster.Lifecycle.Read.Laws.{instances-k8s_state}
use hermes_cluster.Lifecycle.Control.{satisfy_wake_at, wake, purge, remove_claim, decommission}
use hermes_cluster.Lifecycle.Control.Laws.{purge-k8s_state}

module _ {KS CS AS : Type 0} (m : Manager KS CS AS) {view : KS → View} {Sane : KS → Type 0}
    (k : Contract m.k8s view Sane) (j : String) where
  -- From a state in good order to another, the claim `j` being as it was.
  abbrev pub Keeps : KS → KS → Type 0
  Keeps s t = Sane s → Sane t × ((view t).claim j ≡ (view s).claim j)

  abbrev pub Leaves : World KS CS AS → World KS CS AS → Type 0
  Leaves w v = Keeps w.k8s_state v.k8s_state

  pub Leaves-Preorder : Preorder Leaves
  Leaves-Preorder = record {
    same = λ w s. (s, refl);
    trans = λ u v w f g s. let (a, b) = f s in let (c, d) = g a in (c, d ∙ b);
  }

  get_claim-Leaves : (n : String) → Within Leaves (on_k8s (m.k8s.get_claim n))
  get_claim-Leaves n w s =
      (k.get_claim-Sane n w.k8s_state s, ap (λ v. v.claim j) (k.get_claim-view n w.k8s_state s))

  pub sandbox-Leaves : (c : Claim) → Within Leaves (sandbox m c)
  unfolding sandbox
  sandbox-Leaves c w s =
      let n = sandbox_name_of c in
      (k.get_sandbox-Sane n w.k8s_state s, ap (λ v. v.claim j) (k.get_sandbox-view n w.k8s_state s))

  pub ensure_exposure-Leaves :
      (spec : ExposureSpec) → Within Leaves (on_k8s (m.k8s.ensure_exposure spec))
  ensure_exposure-Leaves spec w s = (
    k.ensure_exposure-Sane spec w.k8s_state s,
    ap (λ v. v.claim j) (k.ensure_exposure-view spec w.k8s_state s),
  )

  pub patch_mode-Leaves :
      (n mode : String) → Within Leaves (on_k8s (m.k8s.patch_sandbox_operating_mode n mode))
  patch_mode-Leaves n mode w s = (
    k.patch_sandbox_operating_mode-Sane n mode w.k8s_state s,
    ap (λ f. f j) (k.patch_sandbox_operating_mode-claim n mode w.k8s_state s),
  )

  pub patch_annotations-Leaves :
      (n : String) (patch : Dict (Option String))
      → (n == j) ≡ false
      → Within Leaves (on_k8s (m.k8s.patch_claim_annotations n patch))
  patch_annotations-Leaves n patch d w s = (
    k.patch_claim_annotations-Sane n patch w.k8s_state s,
    k.patch_claim_annotations-others n patch w.k8s_state j s d,
  )

  delete_claim-Leaves :
      (n : String) → (n == j) ≡ false → Within Leaves (on_k8s (m.k8s.delete_claim n))
  delete_claim-Leaves n d w s =
      (k.delete_claim-Sane n w.k8s_state s, k.delete_claim-others n w.k8s_state j s d)

  purge-Leaves : (c : Claim) (n : String) → Within Leaves (purge m c n)
  purge-Leaves c n w s = rw (purge-k8s_state m c n w) (s, refl)

  remove_claim-Leaves : (n : String) → (n == j) ≡ false → Within Leaves (remove_claim m n)
  unfolding remove_claim
  remove_claim-Leaves n d w s = let kept = delete_claim-Leaves n d w s in ground (arith, kept)

  -- The name that a claim was read under is its own.
  read-Leaves :
      {A : Type 0} (n : String) (g : Claim → Exec (World KS CS AS) A)
      → ((c : Claim) → c.name ≡ n → Within Leaves (g c))
      → Within Leaves (on_k8s (m.k8s.get_claim n) >>= g)
  read-Leaves n g h w s =
      let w₁ : World KS CS AS = record w { k8s_state = (m.k8s.get_claim n w.k8s_state).1 } in
      let (sane, same) = get_claim-Leaves n w s in
      elim (Result-cases (m.k8s.get_claim n w.k8s_state).0) [
        | inr (e, missing) ↦ rw (missing, continue) (sane, same)
        | inl (c, found) ↦
            let (a, b) = h c (k.get_claim-ok n w.k8s_state c s found).1 w₁ sane in
            rw (found, continue) (a, b ∙ same)
      ]

  satisfy_wake_at-Leaves : (c : Claim) → (c.name == j) ≡ false → Within Leaves (satisfy_wake_at m c)
  unfolding satisfy_wake_at
  satisfy_wake_at-Leaves c d =
      if-Within Leaves-Preorder _ _ _ (pure-Within Leaves-Preorder tt)
        (patch_annotations-Leaves c.name _ d)

  pub wake-Leaves : (n : String) → (n == j) ≡ false → Within Leaves (wake m n)
  unfolding wake
  wake-Leaves n d = read-Leaves n _ (λ c same.
      bind-Within Leaves-Preorder _ _ (patch_mode-Leaves (sandbox_name_of c) mode_running)
        (λ _. satisfy_wake_at-Leaves c (rw same d)))

  pub decommission-Leaves : (n : String) → (n == j) ≡ false → Within Leaves (decommission m n)
  unfolding decommission
  decommission-Leaves n d = read-Leaves n _ (λ c same.
      bind-Within Leaves-Preorder (purge m c n) (λ b. do remove_claim m n; pure b)
        (purge-Leaves c n)
        (λ b.
          bind-Within Leaves-Preorder (remove_claim m n) (λ _. pure b) (remove_claim-Leaves n d)
            (λ _. pure-Within Leaves-Preorder b)))

  pub instances-Leaves : Within Leaves (instances m)
  instances-Leaves w s = rw (instances-k8s_state m w) (s, refl)
