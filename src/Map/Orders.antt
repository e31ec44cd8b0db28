-- ===== src/Map/Orders.antt =====
-- The orders in which one map may be iterated.
use kasmcloud.Prelude.{String, ◌∷◌, []}
use kasmcloud.Map.{Map}

module _ {ℓ} {V : Type ℓ} where
  -- The same entries, in another order.
  pub data Reordered : Map V → Map V → Type ℓ where
    ended : Reordered [] []
    kept : (e : String × V) {m m' : Map V} → Reordered m m' → Reordered (e ∷ m) (e ∷ m')
    swapped : (e f : String × V) (m : Map V) → Reordered (e ∷ f ∷ m) (f ∷ e ∷ m)
    and_then : {m m' m'' : Map V} → Reordered m m' → Reordered m' m'' → Reordered m m''
