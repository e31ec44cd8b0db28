-- ===== src/Handler/Guarded.antt =====
-- Actions of a handler that touch the outside only with a permission.
use kasmcloud.Prelude.{
  String, ◌≡◌, refl, ◌∙◌, ◌⊎◌, inl, inr, Bool, true, false, Option, Result, Error, Action, lift,
  ensure, context, ◌>>=◌, Result-cases,
}
use kasmcloud.External.{Bytes, TargetEntity}
use kasmcloud.External.Effects.{Trace}
use kasmcloud.External.Lattice.{Lattice}
use kasmcloud.Handler.{Handler, Shared}
use kasmcloud.Handler.Invoke.{call_operation}
use kasmcloud.Handler.Invoke.Safety.{KeepsTarget, Permitted, effects-Permitted}

-- From any history, the action does nothing to the outside, or `Permission` holds.
pub record Guarded {A : Type 0} (Permission : Type 0) (m : Action Trace Error A) : Type 0 where
  pub holds : (t : Trace) → ((m t).1 ≡ t) ⊎ Permission

module _ {Permission : Type 0} where
  pub lift-Guarded : {A : Type 0} (r : Result Error A) → Guarded Permission (lift r)
  lift-Guarded r = record { holds = λ t. inl refl }

  pub ensure-Guarded : (b : Bool) (m : String) → Guarded Permission (ensure b m)
  ensure-Guarded true m = record { holds = λ t. inl refl }
  ensure-Guarded false m = record { holds = λ t. inl refl }

  pub bind-Guarded :
      {A B : Type 0} (m : Action Trace Error A) (f : A → Action Trace Error B)
      → Guarded Permission m
      → ((a : A) → Guarded Permission (f a))
      → Guarded Permission (m >>= f)
  bind-Guarded m f g next = record { holds = bound }
    where
      bound : (t : Trace) → (((m >>= f) t).1 ≡ t) ⊎ Permission
      bound t = elim (Result-cases (m t).0) [
        | inl (e, p) ↦ rw p (g.holds t)
        | inr (a, p) ↦ elim (g.holds t) [
          | inr permission ↦ inr permission
          | inl same ↦ elim ((next a).holds (m t).1) [
            | inr permission ↦ inr permission
            | inl same' ↦ inl (rw p (same' ∙ same))
          ]
        ]
      ]

pub call_operation-Guarded :
    (L : Lattice) (h : Handler) (shared : Shared) (target : Option TargetEntity)
    (operation : String) (encoded : Result Error Bytes)
    → KeepsTarget L
    → Guarded
        (Permitted h shared target operation)
        (call_operation L h shared target operation encoded)
unfolding call_operation
call_operation-Guarded L h shared target operation encoded keeps =
    bind-Guarded {A = Bytes} {B = Bytes} (lift (context "failed to encode request" encoded)) _
      (lift-Guarded {A = Bytes} (context "failed to encode request" encoded))
      (λ request. record {
        holds = λ t. effects-Permitted L h shared target operation request t keeps;
      })
