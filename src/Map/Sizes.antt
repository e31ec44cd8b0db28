-- ===== src/Map/Sizes.antt =====
-- How many entries a map has after each operation.
use kasmcloud.Prelude.{String, ◌≡◌, refl, ◌+◌, none, some, [], ◌∷◌, arith, eq_iff, length}
use kasmcloud.Map.{Map, lookup, insert, remove, Distinct}

module _ {ℓ} {V : Type ℓ} where
  pub remove_absent : (k : String) (m : Map V) → lookup k m ≡ none → remove k m ≡ m
  unfolding lookup remove
  remove_absent k [] h = refl
  remove_absent k ((j, w) ∷ m) h = ground (arith, remove_absent k m)

  pub length-insert_new :
      (k : String) (v : V) (m : Map V) → lookup k m ≡ none → length (insert k v m) ≡ length m + 1
  unfolding lookup insert
  length-insert_new k v [] h = omega arith
  length-insert_new k v ((j, w) ∷ m) h = ground (arith, length-insert_new k v m)

  pub length-insert_old :
      (k : String) (v : V) {w : V} (m : Map V)
      → lookup k m ≡ some w
      → length (insert k v m) ≡ length m
  unfolding lookup insert
  length-insert_old k v [] h = cc
  length-insert_old k v {w = w} ((j, x) ∷ m) h = ground (arith, length-insert_old k v {w = w} m)

  pub length-remove :
      (k : String) {w : V} (m : Map V)
      → Distinct m
      → lookup k m ≡ some w
      → length (remove k m) + 1 ≡ length m
  unfolding lookup remove
  length-remove k [] d h = cc
  length-remove k {w = w} ((j, x) ∷ m) d h =
      ground (arith, length-remove k {w = w} m d.1, eq_iff j k, remove_absent k m)
