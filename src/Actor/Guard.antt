-- ===== src/Actor/Guard.antt =====
-- What an instance does for a message only after it has checked it.
use kasmcloud.Prelude.{
  String, ◌≡◌, ◌⊎◌, inl, inr, ◌∷◌, true, ok, err, Error, arith, Result-cases, Option-cases,
  Bool-cases, ltb, add_context,
}
use kasmcloud.External.{Bytes, Invocation}
use kasmcloud.External.Effects.{Trace, Effect}
use kasmcloud.External.Lattice.{Lattice}
use kasmcloud.External.Runtime.{Runtime}
use kasmcloud.Handler.Capability.{ensure_actor_capability, MayCall, ensure_actor_capability_iff}
use kasmcloud.Actor.{
  ActorInstance, Message, accept, handle_invocation, handle_call, handle_message, check_length,
  request_body,
}

module _ {C H S W : Type 0} (L : Lattice) (R : Runtime C H S W) (inst : ActorInstance) where
  -- A message that carries an invocation which decodes and is genuine.
  pub record Genuine (payload : Bytes) : Type 0 where
    pub invocation : Invocation
    pub decoded : L.decode_invocation payload ≡ ok invocation
    pub validated : L.validate_antiforgery invocation inst.valid_issuers ≡ ok tt

  -- Such a message, of whose origin's contract the actor may be called.
  pub record Admitted (payload : Bytes) : Type 0 where
    pub genuine : Genuine payload
    pub may_call : MayCall inst.handler.claims.metadata genuine.invocation.origin.contract_id

  accept-decoded :
      (payload : Bytes) (inv : Invocation)
      → accept L R inst payload ≡ ok inv
      → (L.decode_invocation payload ≡ ok inv)
        × (L.validate_antiforgery inv inst.valid_issuers ≡ ok tt)
  unfolding accept
  accept-decoded payload inv h = elim (Result-cases (L.decode_invocation payload)) [
    | inl (e, p) ↦ absurd (ground arith)
    | inr (i, p) ↦ elim (Result-cases (L.validate_antiforgery i inst.valid_issuers)) [
      | inl (e, q) ↦ absurd (ground arith)
      | inr (u, q) ↦ (ground arith, ground arith)
    ]
  ]

  handle_invocation_denied :
      (c op : String) (msg : Bytes) (t : Trace) (e : Error)
      → ensure_actor_capability inst.handler.claims.metadata c ≡ err e
      → handle_invocation L R inst c op msg t ≡ (err e, t)
  unfolding handle_invocation
  handle_invocation_denied c op msg t e h = rw h

  handle_call_rejected :
      (payload : Bytes) (t : Trace) (e : Error)
      → accept L R inst payload ≡ err e
      → handle_call L R inst payload t ≡ (err e, t)
  unfolding handle_call
  handle_call_rejected payload t e h = rw h

  -- It fails before the body is read, after a body in the store was asked for, or with one at hand.
  handle_call_denied :
      (payload : Bytes) (t : Trace) (inv : Invocation) (x : Error)
      → accept L R inst payload ≡ ok inv
      → ensure_actor_capability inst.handler.claims.metadata inv.origin.contract_id ≡ err x
      → (e : Error) × ((handle_call L R inst payload t ≡ (err e, t))
          ⊎ ((ltb L.chunk_threshold inv.content_length ≡ true)
              × (handle_call L R inst payload t ≡ (err e, Effect.fetched inv.id ∷ t))))
  unfolding handle_call request_body
  handle_call_denied payload t inv x a denied =
      let refused = λ (msg : Bytes) (t : Trace).
        handle_invocation_denied inv.origin.contract_id inv.operation msg t x denied in
      elim (Result-cases (check_length L R inst inv.content_length)) [
        | inl (e, b) ↦ (e, inl (rw (a, b)))
        | inr (u, b) ↦ elim (Bool-cases (ltb L.chunk_threshold inv.content_length)) [
          | inr short ↦ (
            add_context "failed to handle invocation" x,
            inl (rw (a, b, short, refused inv.msg t)),
          )
          | inl long ↦ elim (Result-cases (L.get_unchunkified inv.id t)) [
            | inl (e, c) ↦ (e, inr (long, rw (a, b, long, c)))
            | inr (msg, c) ↦ (
              add_context "failed to handle invocation" x,
              inr (long, rw (a, b, long, c, refused msg (Effect.fetched inv.id ∷ t))),
            )
          ]
        ]
      ]

  unpublished :
      (m : Message) (e : Error) (t t' : Trace)
      → handle_call L R inst m.payload t ≡ (err e, t')
      → handle_message L R inst m t ≡ t'
  unfolding handle_message
  unpublished m e t t' h = elim (Option-cases m.reply) [
    | inl p ↦ rw (h, p)
    | inr (reply, p) ↦ rw (h, p)
  ]

  -- What an instance does for a message: nothing at all to the outside; or, for an invocation that
  -- decodes and passes the antiforgery check against the issuers of the instance and whose
  -- announced length is over the threshold, one request for its body to the chunk store and
  -- nothing else; unless the invocation is one of those and the claims of the actor also allow the
  -- contract of its origin.
  pub handle_message_guarded :
      (m : Message) (t : Trace)
      → (handle_message L R inst m t ≡ t)
        ⊎ (((g : Genuine m.payload) × (ltb L.chunk_threshold g.invocation.content_length ≡ true)
              × (handle_message L R inst m t ≡ Effect.fetched g.invocation.id ∷ t))
            ⊎ Admitted m.payload)
  handle_message_guarded m t = elim (Result-cases (accept L R inst m.payload)) [
    | inl (e, p) ↦ inl (unpublished m e t t (handle_call_rejected m.payload t e p))
    | inr (inv, p) ↦
        let (d, v) = accept-decoded m.payload inv p in
        let g : Genuine m.payload = record { invocation = inv; decoded = d; validated = v } in
        elim (Result-cases
          (ensure_actor_capability inst.handler.claims.metadata inv.origin.contract_id)) [
            | inl (x, q) ↦
                let (e, outcome) = handle_call_denied m.payload t inv x p q in
                elim outcome [
                  | inl r ↦ inl (unpublished m e t t r)
                  | inr (long, r) ↦
                      inr (inl (g, long, unpublished m e t (Effect.fetched inv.id ∷ t) r))
                ]
            | inr (u, q) ↦
                inr (inr (record { genuine = g; may_call = (ensure_actor_capability_iff _ _).0 q }))
          ]
  ]
