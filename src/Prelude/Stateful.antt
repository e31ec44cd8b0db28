-- ===== src/Prelude/Stateful.antt =====
-- Code that may fail and that changes a state. What was changed before a failure stays changed,
-- so the state comes back beside the error too.
use Prim.Native.String.{String}
use native.Mathlib.Omega.{arith}
use mathlib.Core.Logic.{inl, inr}
use mathlib.Core.Path.{◌≡◌}
use mathlib.Core.Bool.{Bool, true, false}
use package.kasmcloud.Prelude.Outcome.{Result, ok, err, Error, anyhow, context, Result-cases}

abbrev pub Action : Type 0 → Type 0 → Type 0 → Type 0
Action S E A = S → Result E A × S

module _ {S E A : Type 0} where
  abbrev pub pure : A → Action S E A
  pure a s = (ok a, s)

  abbrev pub raise : E → Action S E A
  raise e s = (err e, s)

  -- `?` on a value computed without the state
  abbrev pub lift : Result E A → Action S E A
  lift r s = (r, s)

  abbrev pub gets : (S → A) → Action S E A
  gets f s = (ok (f s), s)

  -- a call whose answer depends on the state and that changes nothing
  abbrev pub ask : (S → Result E A) → Action S E A
  ask f s = (f s, s)

-- `.await.context(message)?` on a step
abbrev pub with_context : {S A : Type 0} → String → Action S Error A → Action S Error A
with_context m step s = let (r, s') = step s in (context m r, s')

-- `ensure!(test, message)`
abbrev pub ensure : {S : Type 0} → Bool → String → Action S Error (Unit {0})
ensure true m s = (ok tt, s)
ensure false m s = (err (anyhow m), s)

abbrev pub modify : {S E : Type 0} → (S → S) → Action S E (Unit {0})
modify f s = (ok tt, f s)

module _ {S E A B : Type 0} where
  abbrev pub continue : Result E A → (A → Action S E B) → Action S E B
  continue (ok a) f s = f a s
  continue (err e) f s = (err e, s)

  infixl 5 ◌>>=◌ ◌>>◌
  abbrev pub ◌>>=◌ : Action S E A → (A → Action S E B) → Action S E B
  ◌>>=◌ m f s = let (r, s') = m s in continue r f s'

  abbrev pub ◌>>◌ : Action S E A → Action S E B → Action S E B
  m >> k = m >>= λ _. k

  -- A failed step ends the block, where it left the state.
  pub bind-err :
      (m : Action S E A) (f : A → Action S E B) (s : S) {e : E}
      → (m s).0 ≡ err e
      → (m >>= f) s ≡ (err e, (m s).1)
  bind-err m f s h = rw h

  pub bind-ok :
      (m : Action S E A) (f : A → Action S E B) (s : S) {a : A}
      → (m s).0 ≡ ok a
      → (m >>= f) s ≡ f a (m s).1
  bind-ok m f s h = rw h

  -- Inversion of a block that succeeded.
  pub bind-eq-ok :
      (m : Action S E A) (f : A → Action S E B) (s : S) {b : B}
      → ((m >>= f) s).0 ≡ ok b
      → (a : A) × ((m s).0 ≡ ok a) × ((f a (m s).1).0 ≡ ok b)
  bind-eq-ok m f s h = elim (Result-cases (m s).0) [
    | inl (e, p) ↦ absurd (ground arith)
    | inr (a, p) ↦ (a, p, rw p at h)
  ]

module _ {S E A : Type 0} where
  -- The action fails and leaves the state as it was.
  abbrev pub Fails : Action S E A → S → Type 0
  Fails m s = (e : E) × (m s ≡ (err e, s))

module _ {S E A B : Type 0} where
  pub Fails-bind :
      (m : Action S E A) (f : A → Action S E B) (s : S)
      → (m s).1 ≡ s
      → ((a : A) → (m s).0 ≡ ok a → Fails (f a) s)
      → Fails (m >>= f) s
  Fails-bind m f s same next = elim (Result-cases (m s).0) [
    | inl (e, p) ↦ (e, rw (p, same))
    | inr (a, p) ↦ rw (p, same) (next a p)
  ]
