-- ===== src/Base/Dict.antt =====
-- Go maps with string keys, as association lists. Go fixes no order of iteration; the theorems
-- about code that ranges over a map speak of membership only.
use hermes_cluster.Base.{
  String, ◌≡◌, refl, Bool, false, ◌||◌, Option, none, some, List, [], ◌∷◌, arith, ◌==◌, eq_iff,
  is_some, if◌then◌else◌,
}

abbrev pub Dict {ℓ} : Type ℓ → Type ℓ
Dict V = List (String × V)

module _ {ℓ} {V : Type ℓ} where
  -- m[k], with `none` for a missing key
  unfoldable pub lookup : String → Dict V → Option V
  lookup key [] = none
  lookup key ((own, value) ∷ rest) = if own == key then some value else lookup key rest

  -- m[k] = v
  unfoldable pub insert : String → V → Dict V → Dict V
  insert key new [] = (key, new) ∷ []
  insert key new ((own, value) ∷ rest) =
      if own == key then (key, new) ∷ rest else (own, value) ∷ insert key new rest

  -- delete(m, k)
  unfoldable pub erase : String → Dict V → Dict V
  erase k [] = []
  erase k ((j, v) ∷ m) = let rest = erase k m in if j == k then rest else (j, v) ∷ rest

  -- the keys that `range` visits
  unfoldable pub keys : Dict V → List String
  keys [] = []
  keys ((k, v) ∷ m) = k ∷ keys m

  -- `for k := range m { if !keep(k) { delete(m, k) } }`
  unfoldable pub retain : (String → Bool) → Dict V → Dict V
  retain keep [] = []
  retain keep ((k, v) ∷ m) = let rest = retain keep m in if keep k then (k, v) ∷ rest else rest

  pub lookup-insert :
      (set read : String) (new : V) (dict : Dict V)
      → lookup read (insert set new dict) ≡ (if set == read then some new else lookup read dict)
  unfolding insert lookup
  lookup-insert set read new [] = refl
  lookup-insert set read new ((own, value) ∷ rest) =
      let later = lookup-insert set read new rest in
      ground (arith, eq_iff own set, eq_iff own read, eq_iff set read)

  pub lookup-erase :
      (k j : String) (m : Dict V) → lookup j (erase k m) ≡ (if k == j then none else lookup j m)
  unfolding lookup erase
  lookup-erase k j [] = ground arith
  lookup-erase k j ((i, w) ∷ m) =
      ground (arith, eq_iff k j, eq_iff i k, eq_iff i j, lookup-erase k j m)

  pub lookup-retain :
      (keep : String → Bool) (j : String) (m : Dict V)
      → lookup j (retain keep m) ≡ (if keep j then lookup j m else none)
  unfolding lookup retain
  lookup-retain keep j [] = ground arith
  lookup-retain keep j ((i, w) ∷ m) = ground (arith, eq_iff i j, lookup-retain keep j m)

abbrev pub contains : List String → String → Bool
contains [] k = false
contains (x ∷ xs) k = x == k || contains xs k

pub contains-keys {ℓ} :
    {V : Type ℓ} (k : String) (m : Dict V) → contains (keys m) k ≡ is_some (lookup k m)
unfolding keys lookup
contains-keys k [] = refl
contains-keys k ((j, v) ∷ m) = ground (arith, contains-keys k m)
