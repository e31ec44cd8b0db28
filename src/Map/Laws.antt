-- ===== src/Map/Laws.antt =====
-- The laws by which the other modules use maps.
use kasmcloud.Prelude.{
  String, ◌≡◌, refl, ◌≢◌, Bool, true, false, Option, none, some, List, [], ◌∷◌, arith, ◌==◌, eq_iff,
  eq_refl, if◌then◌else◌, Bool-cases, inl, inr,
}
use kasmcloud.Map.{Map, lookup, insert, remove, Distinct}

module _ {ℓ} {V : Type ℓ} where
  pub lookup-remove :
      (key at : String) (rest : Map V)
      → lookup at (remove key rest) ≡ (if key == at then none else lookup at rest)
  unfolding lookup remove
  lookup-remove key at [] = ground arith
  lookup-remove key at ((first, held) ∷ rest) =
      ground (arith, eq_iff key at, eq_iff first key, eq_iff first at, lookup-remove key at rest)

  pub lookup-insert :
      (key at : String) (v : V) (rest : Map V)
      → lookup at (insert key v rest) ≡ (if key == at then some v else lookup at rest)
  unfolding lookup insert
  lookup-insert key at v [] = refl
  lookup-insert key at v ((first, held) ∷ rest) =
      ground (arith, eq_iff key at, eq_iff first key, eq_iff first at, lookup-insert key at v rest)

  pub lookup-insert_self :
      (key : String) (v : V) (rest : Map V) → lookup key (insert key v rest) ≡ some v
  lookup-insert_self key v rest = simp (lookup-insert, eq_refl)

  pub lookup-remove_self : (key : String) (rest : Map V) → lookup key (remove key rest) ≡ none
  lookup-remove_self key rest = simp (lookup-remove, eq_refl)

  pub lookup-insert_ne :
      (k j : String) (v : V) (m : Map V) → k ≢ j → lookup j (insert k v m) ≡ lookup j m
  lookup-insert_ne k j v m h = rw (lookup-insert k j v m) (ground (arith, eq_iff k j))

  pub lookup-remove_ne : (k j : String) (m : Map V) → k ≢ j → lookup j (remove k m) ≡ lookup j m
  lookup-remove_ne k j m h = rw (lookup-remove k j m) (ground (arith, eq_iff k j))

  pub insert-Distinct : (k : String) (v : V) (m : Map V) → Distinct m → Distinct (insert k v m)
  unfolding insert lookup
  insert-Distinct k v [] h = ground arith
  insert-Distinct k v ((j, w) ∷ m) h =
      ground (arith, insert-Distinct k v m h.1, lookup-insert k j v m, eq_iff j k, eq_iff k j)

  pub remove-Distinct : (k : String) (m : Map V) → Distinct m → Distinct (remove k m)
  unfolding remove
  remove-Distinct k [] h = h
  remove-Distinct k ((j, w) ∷ m) h =
      ground (arith, remove-Distinct k m h.1, lookup-remove k j m, eq_iff j k, eq_iff k j)

pub ruleset map_laws = (lookup-insert, lookup-remove, eq_refl)
