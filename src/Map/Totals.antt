-- ===== src/Map/Totals.antt =====
-- The sum of a weight over the entries of a map, after each operation.
use kasmcloud.Prelude.{ℕ, String, ◌≡◌, refl, ◌+◌, Option, none, some, [], ◌∷◌, arith, eq_iff}
use kasmcloud.Map.{Map, lookup, insert, remove, Distinct}

module _ {ℓ} {V : Type ℓ} (weight : V → ℕ) where
  abbrev pub total : Map V → ℕ
  total [] = 0
  total ((_, v) ∷ m) = weight v + total m

  abbrev pub weight_of : Option V → ℕ
  weight_of none = 0
  weight_of (some v) = weight v

  pub total-insert :
      (k : String) (v : V) (m : Map V)
      → total (insert k v m) + weight_of (lookup k m) ≡ total m + weight v
  unfolding lookup insert
  total-insert k v [] = omega arith
  total-insert k v ((j, w) ∷ m) = ground (arith, total-insert k v m)

  total-remove_absent : (k : String) (m : Map V) → lookup k m ≡ none → total (remove k m) ≡ total m
  unfolding lookup remove
  total-remove_absent k [] h = refl
  total-remove_absent k ((j, w) ∷ m) h = ground (arith, total-remove_absent k m)

  pub total-remove :
      (k : String) (m : Map V) → Distinct m → total (remove k m) + weight_of (lookup k m) ≡ total m
  unfolding lookup remove
  total-remove k [] d = refl
  total-remove k ((j, w) ∷ m) d =
      ground (arith, total-remove k m d.1, eq_iff j k, total-remove_absent k m)
