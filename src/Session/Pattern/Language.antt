-- ===== src/Session/Pattern/Language.antt =====
-- The language of a pattern, and that the matcher of `Session.Pattern` decides it.
use hermes_cluster.Base.{
  ℕ, ◌≡◌, refl, ap, ◌∙◌, sym, ◌↔◌, ◌⊎◌, inl, inr, Bool, true, List, [], ◌∷◌, ◌++◌, arith,
  Bool-cases,
}
use mathlib.Core.List.{append_assoc, append-nil}
use hermes_cluster.Base.Text.{all}
use hermes_cluster.Session.Pattern.{
  Pattern, empty, class, seq, opt, plus, run, run_plus, at_end, matches,
}

-- The texts that a pattern stands for, as regular expressions are read.
abbrev pub In : Pattern → List ℕ → Type 0
In empty s = s ≡ []
In (class p) s = (c : ℕ) × (s ≡ c ∷ []) × (p c ≡ true)
In (seq a b) s = (u : List ℕ) × (v : List ℕ) × (s ≡ u ++ v) × In a u × In b v
In (opt a) s = (s ≡ []) ⊎ In a s
In (plus p) s = (c : ℕ) × (u : List ℕ) × (s ≡ c ∷ u) × (all p s ≡ true)

-- A front of the text is in the language of `r`, and `k` accepts the rest.
abbrev Splits : Pattern → List ℕ → (List ℕ → Bool) → Type 0
Splits r s k = (u : List ℕ) × (v : List ℕ) × (s ≡ u ++ v) × In r u × (k v ≡ true)

run_plus_sound :
    (p : ℕ → Bool) (s : List ℕ) (k : List ℕ → Bool) → run_plus p s k ≡ true → Splits (plus p) s k
run_plus_sound p [] k h = cc
run_plus_sound p (c ∷ s) k h = elim (Bool-cases (k s)) [
  | inl now ↦ (c ∷ [], s, refl, (c, [], refl, ground arith), now)
  | inr later ↦
      let (u, v, e, (d, w, f, g), t) = run_plus_sound p s k (ground arith) in
      (c ∷ u, v, ap (λ r. c ∷ r) e, (c, u, refl, ground arith), t)
]

run_sound : (r : Pattern) (s : List ℕ) (k : List ℕ → Bool) → run r s k ≡ true → Splits r s k
unfolding run
run_sound empty s k h = ([], s, refl, refl, h)
run_sound (class p) [] k h = cc
run_sound (class p) (c ∷ s) k h = (c ∷ [], s, refl, (c, refl, ground arith), ground arith)
run_sound (seq a b) s k h =
    let (u, v, e, m, t) = run_sound a s (λ rest. run b rest k) h in
    let (u', v', e', m', t') = run_sound b v k t in
    (u ++ u', v', e ∙ ap (λ r. u ++ r) e' ∙ sym (append_assoc u u' v'), (u, u', refl, m, m'), t')
run_sound (opt a) s k h = elim (Bool-cases (k s)) [
  | inl now ↦ ([], s, refl, inl refl, now)
  | inr later ↦ let (u, v, e, m, t) = run_sound a s k (ground arith) in (u, v, e, inr m, t)
]
run_sound (plus p) s k h = run_plus_sound p s k h

run_plus_complete :
    (p : ℕ → Bool) (c : ℕ) (u v : List ℕ) (k : List ℕ → Bool)
    → all p (c ∷ u) ≡ true
    → k v ≡ true
    → run_plus p (c ∷ u ++ v) k ≡ true
run_plus_complete p c [] v k h t = ground arith
run_plus_complete p c (d ∷ u) v k h t = ground (arith, run_plus_complete p d u v k)

run_complete :
    (r : Pattern) (u v : List ℕ) (k : List ℕ → Bool) → In r u → k v ≡ true → run r (u ++ v) k ≡ true
unfolding run
run_complete empty u v k m t = rw m t
run_complete (class p) u v k (c, e, m) t = rw e (ground arith)
run_complete (seq a b) u v k (u₁, u₂, e, m₁, m₂) t = rw e (
    rw append_assoc
      (run_complete a u₁ (u₂ ++ v) (λ rest. run b rest k) m₁ (run_complete b u₂ v k m₂ t)))
run_complete (opt a) u v k (inl e) t = rw e (ground arith)
run_complete (opt a) u v k (inr m) t = ground (arith, run_complete a u v k m t)
run_complete (plus p) u v k (c, w, e, m) t = rw e (run_plus_complete p c w v k (rw e at m) t)

at_end_nil : (v : List ℕ) → at_end v ≡ true → v ≡ []
at_end_nil [] h = refl
at_end_nil (c ∷ v) h = cc

-- `MatchString` with both anchors accepts exactly the texts in the pattern's language.
pub matches_iff : (r : Pattern) (s : List ℕ) → (matches r s ≡ true) ↔ In r s
unfolding matches
matches_iff r s = (
  λ h.
      let (u, v, e, m, t) = run_sound r s at_end h in
      rw (e ∙ ap (λ w. u ++ w) (at_end_nil v t) ∙ append-nil u) m,
  λ m. rw (← append-nil s) (run_complete r s [] at_end m refl),
)
