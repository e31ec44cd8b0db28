-- ===== src/Actor/RoundTrip.antt =====
-- A call from one actor's handler to another actor's instance, over NATS and back.
use kasmcloud.Prelude.{
  ℕ, String, ◌≡◌, refl, ◌≤◌, Option, some, Result, ok, err, arith, length, ltb, eq_refl, ◌∙◌,
}
use kasmcloud.External.{Bytes, Invocation, InvocationResponse, TargetEntity, default_response}
use kasmcloud.External.Effects.{Trace}
use kasmcloud.External.Lattice.{Lattice}
use kasmcloud.External.Runtime.{Runtime}
use kasmcloud.Handler.{Handler, Shared}
use kasmcloud.Handler.Invoke.{
  prepare, request_of, chunk_invocation, read_response, call_operation_with_payload,
}
use kasmcloud.Handler.Invoke.Safety.{prepare-trace}
use kasmcloud.Actor.{
  ActorInstance, accept, handle_invocation, handle_call, check_length, request_body, respond,
}

-- The response that carries a reply whole.
abbrev pub whole_response : String → Result String Bytes → InvocationResponse
whole_response id (ok msg) = record default_response {
  msg = msg;
  invocation_id = id;
  content_length = length msg;
}
whole_response id (err e) = record default_response { invocation_id = id; error = some e }

-- Short enough to travel in the message.
abbrev pub IsShort : Lattice → Result String Bytes → Type 0
IsShort L (ok msg) = length msg ≤ L.chunk_threshold
IsShort L (err e) = Unit

module _ {C H S W : Type 0} (L : Lattice) (R : Runtime C H S W) (inst : ActorInstance) where
  respond_whole :
      (id : String) (reply : Result String Bytes) (t : Trace)
      → IsShort L reply
      → respond L R inst id reply t ≡ (ok (whole_response id reply), t)
  unfolding respond
  respond_whole id (ok msg) t h = ground arith
  respond_whole id (err e) t h = refl

  accept_lem :
      (payload : Bytes) (inv : Invocation)
      → L.decode_invocation payload ≡ ok inv
      → L.validate_antiforgery inv inst.valid_issuers ≡ ok tt
      → accept L R inst payload ≡ ok inv
  unfolding accept
  accept_lem payload inv d v = ground arith

  check_length_lem : (n : ℕ) → n ≤ L.usize_max → check_length L R inst n ≡ ok tt
  unfolding check_length
  check_length_lem n h = ground arith

  request_body_lem :
      (inv : Invocation) (t : Trace)
      → inv.content_length ≤ L.chunk_threshold
      → request_body L R inst inv t ≡ (ok inv.msg, t)
  unfolding request_body
  request_body_lem inv t h = ground arith

  served :
      (payload buf : Bytes) (inv : Invocation) (reply : Result String Bytes) (t : Trace)
      → inv.content_length ≤ L.chunk_threshold
      → L.chunk_threshold ≤ L.usize_max
      → L.decode_invocation payload ≡ ok inv
      → L.validate_antiforgery inv inst.valid_issuers ≡ ok tt
      → (handle_invocation L R inst inv.origin.contract_id inv.operation inv.msg t).0 ≡ ok reply
      → IsShort L reply
      → L.encode_response (whole_response inv.id reply) ≡ ok buf
      → (handle_call L R inst payload t).0 ≡ ok buf
  unfolding handle_call
  served payload buf inv reply t short fits d v r s e = rw (
    accept_lem payload inv d v,
    check_length_lem inv.content_length (omega arith),
    request_body_lem inv t short,
    r,
    respond_whole inv.id reply _ s,
    e,
  )

-- the caller's half
module _ (L : Lattice) where
  chunk_invocation_short :
      (inv : Invocation) (n : ℕ) (t : Trace)
      → n ≤ L.chunk_threshold
      → chunk_invocation L (ltb L.chunk_threshold n) inv t ≡ (ok inv, t)
  unfolding chunk_invocation
  chunk_invocation_short inv n t h = ground arith

  read_whole :
      (inv : Invocation) (reply : Result String Bytes) (t : Trace)
      → IsShort L reply
      → L.chunk_threshold ≤ L.usize_max
      → read_response L inv (whole_response inv.id reply) t ≡ (ok reply, t)
  unfolding read_response
  read_whole inv (ok msg) t s f = ground (arith, eq_refl inv.id)
  read_whole inv (err e) t s f = ground (arith, eq_refl inv.id)

-- A short request that is admitted and served with a short reply comes back to the caller as that
-- reply, be it a value or an error of the actor, given that the codec decodes what it encoded,
-- that a new invocation announces the length of its body, that the threshold fits in usize, and
-- that NATS hands the caller what the instance answered.
pub call-handle_call :
    {C H S W : Type 0} (L : Lattice) (R : Runtime C H S W) (inst : ActorInstance) (h : Handler)
    (shared : Shared) (target : Option TargetEntity) (operation : String)
    (request payload buf : Bytes) (inv : Invocation) (reply : Result String Bytes) (t t' : Trace)
    → length request ≤ L.chunk_threshold
    → L.chunk_threshold ≤ L.usize_max
    → (prepare L h shared target operation request t).0 ≡ ok inv
    → inv.content_length ≡ length request
    → L.encode_invocation inv ≡ ok payload
    → L.decode_invocation payload ≡ ok inv
    → L.validate_antiforgery inv inst.valid_issuers ≡ ok tt
    → (handle_invocation L R inst inv.origin.contract_id inv.operation inv.msg t').0 ≡ ok reply
    → IsShort L reply
    → L.encode_response (whole_response inv.id reply) ≡ ok buf
    → L.decode_response buf ≡ ok (whole_response inv.id reply)
    → L.send_request
        (request_of L h target
          (ltb L.chunk_threshold (length request))
          payload
          inv.target
          (L.injector t))
        t
      ≡ (handle_call L R inst payload t').0
    → (call_operation_with_payload L h shared target operation request t).0 ≡ ok reply
unfolding call_operation_with_payload
call-handle_call L R inst h shared target operation request payload buf inv reply t t' short fits p
      n e d v r s er dr sent =
    rw (
      p,
      prepare-trace L h shared target operation request t,
      chunk_invocation_short L inv (length request) t short,
      e,
      sent ∙ served L R inst payload buf inv reply t' (omega arith) fits d v r s er,
      dr,
      read_whole L inv reply _ s fits,
    )
