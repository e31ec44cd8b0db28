-- ===== src/Handler/Bus/Agreement.antt =====
-- `call` is `call_operation_with_payload` once more, with a reply that is written to a socket.
use kasmcloud.Prelude.{
  String, ◌≡◌, refl, Option, ◌∷◌, Result, ok, err, Error, Result-cases, inl, inr, ◌>>=◌, lift, ap,
  to_string, map_err, context, Action,
}
use kasmcloud.External.{Bytes, TargetEntity, Request}
use kasmcloud.External.Effects.{Trace, Effect, perform}
use kasmcloud.External.Lattice.{Lattice}
use kasmcloud.Handler.{Handler, Shared}
use kasmcloud.Handler.Invoke.{call_operation_with_payload, prepare, chunk_invocation, read_response}
use kasmcloud.Handler.Bus.{call, deliver, as_text}

-- An answer, or an error of the target's, is handed on from the same history; a failure on the way
-- is a failure with the same history, and the texts of the two may differ.
abbrev pub Agrees :
    Lattice
    → Handler
    → Result Error (Result String Bytes) × Trace
    → Result String (Unit {0}) × Trace
    → Type 0
Agrees L h (ok reply, t) r = r ≡ deliver L h reply t
Agrees L h (err e, t) r = (m : String) × (r ≡ (err m, t))

-- `m'` is `m` with its errors turned into texts.
abbrev SameStep : {A : Type 0} → Action Trace Error A → Action Trace String A → Type 0
SameStep m m' = (t : Trace) → (g : Error → String) × (m' t ≡ (map_err g (m t).0, (m t).1))

module _ (L : Lattice) (h : Handler) where
  Agrees-bind :
      {A : Type 0} (m : Action Trace Error A) (m' : Action Trace String A)
      (f : A → Action Trace Error (Result String Bytes)) (f' : A → Action Trace String (Unit {0}))
      → SameStep m m'
      → ((a : A) (t : Trace) → Agrees L h (f a t) (f' a t))
      → (t : Trace) → Agrees L h ((m >>= f) t) ((m' >>= f') t)
  Agrees-bind m m' f f' same next t = elim (Result-cases (m t).0) [
    | inl (e, p) ↦ let (g, q) = same t in rw (q, p) (g e, refl)
    | inr (a, p) ↦ let (g, q) = same t in rw (q, p) (next a (m t).1)
  ]

  same_context :
      {A : Type 0} (a b : String) (r : Result Error A)
      → (g : Error → String) × (map_err to_string (context a r) ≡ map_err g (context b r))
  same_context a b (ok x) = (to_string, refl)
  same_context a b (err e) = ((λ _. a), refl)

  same_sent :
      (req : Request)
      → SameStep
          (perform
            (Effect.requested req)
            (λ t. context "failed to publish on NATS topic" (L.send_request req t)))
          (perform
            (Effect.requested req)
            (λ t. map_err to_string (context "failed to call provider" (L.send_request req t))))
  same_sent req t =
      let (g, e) =
        same_context "failed to call provider" "failed to publish on NATS topic"
          (L.send_request req t) in
      (g, ap (λ r. (r, Effect.requested req ∷ t)) e)

  Agrees-deliver :
      (m : Action Trace Error (Result String Bytes)) (t : Trace)
      → Agrees L h (m t) ((as_text m >>= deliver L h) t)
  Agrees-deliver m t = elim (Result-cases (m t).0) [
    | inl (e, p) ↦ rw p (to_string e, refl)
    | inr (reply, p) ↦ rw p refl
  ]

  -- For every call, target and history: where call_operation_with_payload has a reply, call has it
  -- written to its socket, or fails with the error of the target; where it fails, call fails, with
  -- the same effects on the outside.
  pub call-Agrees :
      (shared : Shared) (target : Option TargetEntity) (operation : String) (request : Bytes)
      (t : Trace)
      → Agrees L h
          (call_operation_with_payload L h shared target operation request t)
          (call L h shared target operation (ok request) t)
  unfolding call call_operation_with_payload
  call-Agrees shared target operation request t =
      Agrees-bind (prepare L h shared target operation request) _ _ _ (λ _. (to_string, refl))
        (λ inv t₁.
          Agrees-bind (chunk_invocation L _ inv) _ _ _ (λ _. (to_string, refl))
            (λ sent t₂.
              Agrees-bind (lift _) _ _ _ (λ _. (to_string, refl))
                (λ payload t₃.
                  Agrees-bind _ _ _ _ (λ t. same_sent _ t)
                    (λ res t₄.
                      Agrees-bind (lift _) _ _ _ (λ _. (to_string, refl))
                        (λ response t₅. Agrees-deliver (read_response L sent response) t₅) t₄)
                    t₃)
                t₂)
            t₁)
        t
