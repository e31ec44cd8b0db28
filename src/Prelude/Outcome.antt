-- ===== src/Prelude/Outcome.antt =====
-- Results and the errors of `anyhow`: an error is its message with the messages of its causes.
use Prim.Native.String.{String}
use mathlib.Core.Path.{◌≡◌, refl}
use mathlib.Core.Logic.{◌⊎◌, inl, inr}
use mathlib.Core.Option.{Option, none, some}
use mathlib.Core.List.{List, [], ◌∷◌}

pub data Result {ℓ κ} (E : Type ℓ) (A : Type κ) : Type (ℓ ⊔ κ) where
  ok : A → Result E A
  err : E → Result E A

-- `anyhow::Error`: what it displays, and the chain below it.
pub record Error : Type 0 where
  pub message : String
  pub causes : List String

-- `anyhow!(message)`
abbrev pub anyhow : String → Error
anyhow m = record { message = m; causes = [] }

-- `Error::context`
abbrev pub add_context : String → Error → Error
add_context m e = record { message = m; causes = e.message ∷ e.causes }

-- `to_string`: the outermost message alone.
abbrev pub to_string : Error → String
to_string e = e.message

module _ {ℓ} {A : Type ℓ} where
  -- `Context::context` of a `Result`
  abbrev pub context : String → Result Error A → Result Error A
  context m (ok a) = ok a
  context m (err e) = err (add_context m e)

  -- `Context::context` of an `Option`
  abbrev pub context_none : String → Option A → Result Error A
  context_none m none = err (anyhow m)
  context_none m (some a) = ok a

  -- `Result::map_err`
  abbrev pub map_err {κ μ} : {E : Type κ} {F : Type μ} → (E → F) → Result E A → Result F A
  map_err f (ok a) = ok a
  map_err f (err e) = err (f e)

-- To split on a computed result and keep the equation.
pub Result-cases {ℓ κ} :
    {E : Type ℓ} {A : Type κ} (r : Result E A) → ((e : E) × (r ≡ err e)) ⊎ ((a : A) × (r ≡ ok a))
Result-cases (ok a) = inr (a, refl)
Result-cases (err e) = inl (e, refl)

pub context-eq-ok {ℓ} :
    {A : Type ℓ} (m : String) (r : Result Error A) {a : A} → context m r ≡ ok a → r ≡ ok a
context-eq-ok m (ok x) h = h
context-eq-ok m (err e) h = absurd (cc)
