-- ===== src/Base/Frame.antt =====
-- What an operation leaves alone, as a relation between the states before and after it: the rules
-- by which such a bound is shown of an operation from those of its parts.
use hermes_cluster.Base.{◌≡◌, refl, Bool, true, false, if◌then◌else◌}
use hermes_cluster.Base.Exec.{Exec, Result, ok, err, pure, attempt, continue, ◌>>=◌}

pub record Preorder {S : Type 0} (R : S → S → Type 0) : Type 0 where
  pub same : (s : S) → R s s
  pub trans : (s t u : S) → R s t → R t u → R s u

abbrev pub Within : {S A : Type 0} → (S → S → Type 0) → Exec S A → Type 0
Within {S} R f = (s : S) → R s (f s).1

module _ {S : Type 0} {R : S → S → Type 0} (p : Preorder R) where
  pub pure-Within : {A : Type 0} (a : A) → Within R (pure a)
  pure-Within a s = p.same s

  pub continue-Within :
      {A B : Type 0} (r : Result A) (g : A → Exec S B)
      → ((a : A) → Within R (g a))
      → Within R (continue r g)
  continue-Within (ok a) g h s = h a s
  continue-Within (err e) g h s = p.same s

  pub bind-Within :
      {A B : Type 0} (f : Exec S A) (g : A → Exec S B)
      → Within R f
      → ((a : A) → Within R (g a))
      → Within R (f >>= g)
  bind-Within f g hf hg s =
      p.trans s (f s).1 ((f >>= g) s).1 (hf s) (continue-Within (f s).0 g hg (f s).1)

  pub attempt-Within : {A : Type 0} (f : Exec S A) → Within R f → Within R (attempt f)
  attempt-Within f h s = h s

  pub if-Within :
      {A : Type 0} (b : Bool) (f g : Exec S A)
      → Within R f
      → Within R g
      → Within R (if b then f else g)
  if-Within true f g hf hg = hf
  if-Within false f g hf hg = hg

  -- The same with what is known of the test in either branch.
  pub branch-Within :
      {A : Type 0} (b : Bool) (f g : Exec S A)
      → (b ≡ true → Within R f)
      → (b ≡ false → Within R g)
      → Within R (if b then f else g)
  branch-Within true f g hf hg = hf refl
  branch-Within false f g hf hg = hg refl
