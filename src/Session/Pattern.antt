-- ===== src/Session/Pattern.antt =====
-- The regular expressions of the program (Go's `regexp`, anchored at both ends): a character
-- class, sequence, an optional part, up to n repetitions, and one or more of a class.
pub mod Language
use hermes_cluster.Base.{ℕ, zero, suc, Bool, true, false, ◌&&◌, ◌||◌, List, [], ◌∷◌}

pub data Pattern : Type 0 where
  empty : Pattern
  class : (ℕ → Bool) → Pattern
  seq : Pattern → Pattern → Pattern
  opt : Pattern → Pattern
  plus : (ℕ → Bool) → Pattern

-- r{0,n}
abbrev pub up_to : ℕ → Pattern → Pattern
up_to zero r = empty
up_to (suc n) r = opt (seq r (up_to n r))

-- `k` judges what is left after one or more characters of the class
abbrev run_plus : (ℕ → Bool) → List ℕ → (List ℕ → Bool) → Bool
run_plus p [] k = false
run_plus p (c ∷ s) k = p c && (k s || run_plus p s k)

abbrev pub run_class : (ℕ → Bool) → List ℕ → (List ℕ → Bool) → Bool
run_class p [] k = false
run_class p (c ∷ s) k = p c && k s

-- whether some way to match a front of the text leaves a rest that `k` accepts
unfoldable pub run : Pattern → List ℕ → (List ℕ → Bool) → Bool
run empty s k = k s
run (class p) s k = run_class p s k
run (seq a b) s k = run a s (λ rest. run b rest k)
run (opt a) s k = k s || run a s k
run (plus p) s k = run_plus p s k

abbrev pub at_end : List ℕ → Bool
at_end [] = true
at_end (c ∷ s) = false

-- re.MatchString for `^r$`
unfoldable pub matches : Pattern → List ℕ → Bool
unfolding run
matches r s = run r s at_end
