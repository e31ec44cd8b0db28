-- ===== src/Map/Cases.antt =====
-- Where the entries of a changed map come from.
use kasmcloud.Prelude.{
  String, ◌≡◌, ◌≢◌, sym, ◌∙◌, inl, inr, ◌⊎◌, true, false, none, some, ◌==◌, eq_iff, Bool-cases,
}
use mathlib.Core.Option.{some-injective}
use kasmcloud.Map.{Map, lookup, insert, remove}
use kasmcloud.Map.Laws.{lookup-insert, lookup-remove}

module _ {ℓ} {V : Type ℓ} (key at : String) where
  -- where an entry comes from
  pub insert_cases :
      (x w : V) (m : Map V)
      → lookup at (insert key x m) ≡ some w
      → ((key ≡ at) × (x ≡ w)) ⊎ ((key ≢ at) × (lookup at m ≡ some w))
  insert_cases x w m e = elim (Bool-cases (key == at)) [
    | inl here ↦ inl (
      (eq_iff key at).0 here,
      some-injective x w
          (let e' : some x ≡ some w = rw (lookup-insert key at x m, here) at e in e'),
    )
    | inr away ↦ inr (
      λ i. let e' : true ≡ false = sym ((eq_iff key at).1 i) ∙ away in cc,
      rw (lookup-insert key at x m, away) at e,
    )
  ]

  pub remove_cases :
      (w : V) (m : Map V) → lookup at (remove key m) ≡ some w → (key ≢ at) × (lookup at m ≡ some w)
  remove_cases w m e = elim (Bool-cases (key == at)) [
    | inl here ↦ absurd (let e' : none ≡ some w = rw (lookup-remove key at m, here) at e in cc)
    | inr away ↦ (
      λ i. let e' : true ≡ false = sym ((eq_iff key at).1 i) ∙ away in cc,
      rw (lookup-remove key at m, away) at e,
    )
  ]
