-- ===== src/Actor.antt =====
-- crates/host/src/actor.rs: an actor instance serves the invocations of its queue.
pub mod Buffer
pub mod Guard
pub mod RoundTrip
use kasmcloud.Prelude.{
  ℕ, String, Bool, true, false, Option, none, some, List, [], ◌∷◌, Result, ok, err, Error, anyhow,
  Action, pure, raise, lift, ask, context, with_context, add_context, ◌>>=◌, ◌>>◌, length, ltb, leb,
  format, ◌==◌, ◌&&◌, if◌then◌else◌,
}
use kasmcloud.External.{Bytes, Invocation, InvocationResponse, default_response}
use kasmcloud.External.Effects.{Trace, Effect, perform}
use kasmcloud.External.Lattice.{Lattice}
use kasmcloud.External.Runtime.{Runtime}
use kasmcloud.Handler.{Handler}
use kasmcloud.Handler.Capability.{ensure_actor_capability}
use Buffer.{AsyncBytesMut, write_chunks, into_bytes}

pub record ActorInstance : Type 0 where
  pub id : String
  pub handler : Handler
  pub valid_issuers : List String

-- async_nats::Message
pub record Message : Type 0 where
  pub subject : String
  pub reply : Option String
  pub payload : Bytes

-- `format!("{err:#}")`: the message and its causes.
abbrev joined : List String → String
joined [] = ""
joined (c ∷ cs) = format (": " ∷ c ∷ joined cs ∷ [])

abbrev alternate : Error → String
alternate e = format (e.message ∷ joined e.causes ∷ [])

module _ {C H S W : Type 0} (L : Lattice) (R : Runtime C H S W) (inst : ActorInstance) where
  encode_http : S → Action Trace Error (Result String Bytes)
  encode_http res = do
    wire ← lift (context "failed to convert response" (R.from_http res))
    bytes ← lift (context "failed to encode response" (R.encode_http_response wire))
    pure (ok bytes)

  abbrev answered_http : Result Error S → Action Trace Error (Result String Bytes)
  answered_http (ok res) = encode_http res
  answered_http (err e) = pure (err (alternate e))

  handle_http : String → Bytes → Action Trace Error (Result String Bytes)
  unfolding encode_http
  handle_http operation msg = do
    decoded ← lift (context "failed to decode HTTP request" (R.decode_http_request msg))
    req ← lift (context "failed to convert request" (R.to_http_request decoded))
    ask λ t. context "failed to instantiate `wasi:http/incoming-handler`" (R.into_incoming_http t)
    res ← perform (Effect.invoked operation msg) (λ t. ok (R.handle req t))
    answered_http res

  abbrev answered : List Bytes → Result String (Unit {0}) → Result Error (Result String Bytes)
  answered chunks (err e) = ok (err e)
  answered chunks (ok _) = elim (into_bytes (write_chunks chunks)) [
    | ok bytes ↦ ok (ok bytes)
    | err e ↦ err (add_context "failed to unwrap bytes" e)
  ]

  handle_export : String → Bytes → Action Trace Error (Result String Bytes)
  unfolding into_bytes write_chunks
  handle_export operation msg = do
    chunks ← ask λ t. ok (R.writes operation msg t)
    res ←
        perform (Effect.invoked operation msg)
          λ t. context "failed to call actor" (R.call operation msg t)
    lift (answered chunks res)

  unfoldable pub handle_invocation :
      String → String → Bytes → Action Trace Error (Result String Bytes)
  unfolding handle_http handle_export
  handle_invocation contract_id operation msg = do
    lift (ensure_actor_capability inst.handler.claims.metadata contract_id)
    ask λ t. context "failed to instantiate actor" (R.instantiate t)
    ask λ t. context "failed to set stderr" (R.set_stderr t)
    if contract_id == "wasmcloud:httpserver" && operation == "HttpServer.HandleRequest"
        then handle_http operation msg
        else handle_export operation msg

  -- A long body is stored, and the response announces its length without it.
  unfoldable pub chunk_response : String → Bytes → Action Trace Error Bytes
  chunk_response id msg t =
      if ltb L.chunk_threshold (length msg)
      then (let (r, t') = perform (Effect.chunked_response id msg) (L.chunkify_response id msg) t in
          elim r [
            | ok _ ↦ (ok [], t')
            | err e ↦ (err (add_context "failed to chunk invocation response" e), t')
          ])
      else (ok msg, t)

  unfoldable pub respond : String → Result String Bytes → Action Trace Error InvocationResponse
  unfolding chunk_response
  respond id (ok msg) = do
    body ← chunk_response id msg
    pure (record default_response { msg = body; invocation_id = id; content_length = length msg })
  respond id (err e) = pure (record default_response { invocation_id = id; error = some e })

  -- The body of a request: in the store when it is long.
  unfoldable pub request_body : Invocation → Action Trace Error Bytes
  request_body inv t =
      if ltb L.chunk_threshold inv.content_length
      then perform (Effect.fetched inv.id) (L.get_unchunkified inv.id) t
      else (ok inv.msg, t)

  -- `content_length.try_into()` to usize
  unfoldable pub check_length : ℕ → Result Error (Unit {0})
  check_length n =
      if leb n L.usize_max
      then ok tt
      else err (
          add_context "failed to convert content_length to usize"
            (anyhow "out of range integral type conversion attempted"))

  unfoldable pub accept : Bytes → Result Error Invocation
  accept payload = elim (L.decode_invocation payload) [
    | err e ↦ err (add_context "failed to decode invocation" e)
    | ok inv ↦ elim (L.validate_antiforgery inv inst.valid_issuers) [
      | err e ↦ err e
      | ok _ ↦ ok inv
    ]
  ]

  unfoldable pub handle_call : Bytes → Action Trace Error Bytes
  handle_call payload = do
    invocation ← lift (accept payload)
    lift (check_length invocation.content_length)
    inv_msg ← request_body invocation
    reply ←
        with_context "failed to handle invocation"
          (handle_invocation invocation.origin.contract_id invocation.operation inv_msg)
    res ← respond invocation.id reply
    lift (context "failed to encode response" (L.encode_response res))

  abbrev publish_reply : Option String → Result Error Bytes → Trace → Trace
  publish_reply (some reply) (ok buf) t = Effect.published reply buf ∷ t
  publish_reply _ _ t = t

  unfoldable pub handle_message : Message → Trace → Trace
  handle_message m t = let (res, t') = handle_call m.payload t in publish_reply m.reply res t'
