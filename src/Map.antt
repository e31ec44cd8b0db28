-- ===== src/Map.antt =====
-- `HashMap<String, V>` of std, as an association list. The order of its entries stands for the
-- unspecified order in which a `HashMap` is iterated. `Distinct` says that no key occurs twice,
-- which every operation keeps.
pub mod Laws
pub mod Cases
pub mod Orders
pub mod Sizes
pub mod Totals
use kasmcloud.Prelude.{
  String, ◌≡◌, Bool, true, false, Option, none, some, List, [], ◌∷◌, ◌==◌, if◌then◌else◌, is_some,
}

abbrev pub Map {ℓ} : Type ℓ → Type ℓ
Map V = List (String × V)

module _ {ℓ} {V : Type ℓ} where
  -- `get`
  unfoldable pub lookup : String → Map V → Option V
  lookup k [] = none
  lookup k ((j, v) ∷ m) = if j == k then some v else lookup k m

  -- `insert`, and the `insert` of an entry
  unfoldable pub insert : String → V → Map V → Map V
  insert key v [] = (key, v) ∷ []
  insert key v ((held, old) ∷ rest) =
      if held == key then (held, v) ∷ rest else (held, old) ∷ insert key v rest

  -- `remove`, and the `remove` of an entry
  unfoldable pub remove : String → Map V → Map V
  remove k [] = []
  remove k ((j, w) ∷ m) = if j == k then remove k m else (j, w) ∷ remove k m

  -- `contains_key`
  abbrev pub contains_key : String → Map V → Bool
  contains_key k m = is_some (lookup k m)

  -- `values`
  abbrev pub values : Map V → List V
  values [] = []
  values ((_, v) ∷ m) = v ∷ values m

  abbrev pub Distinct : Map V → Type ℓ
  Distinct [] = Unit
  Distinct ((k, _) ∷ m) = (lookup k m ≡ none) × Distinct m
