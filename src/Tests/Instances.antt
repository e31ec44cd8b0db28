-- ===== src/Tests/Instances.antt =====
-- Witnesses for the theorems on actor.rs.
use kasmcloud.Prelude.{◌≡◌, refl, ◌⊎◌, none, some, [], ◌∷◌, ok, true, ltb, arith}
use kasmcloud.Handler.Capability.{ensure_actor_capability}
use kasmcloud.Handler.Invoke.{call_operation_with_payload, prepare, package_of, request_of}
use kasmcloud.Handler.Target.{resolve_target}
use kasmcloud.Map.{lookup}
use kasmcloud.Actor.{
  Message, handle_message, handle_call, handle_invocation, accept, check_length, request_body,
  respond, chunk_response,
}
use kasmcloud.Actor.Guard.{Genuine, Admitted, handle_message_guarded}
use kasmcloud.External.Effects.{Effect}
use kasmcloud.Actor.RoundTrip.{call-handle_call}
use kasmcloud.Tests.Fixture.{handler, shared, lattice, runtime, instance, invocation_with}

abbrev message : Message
message = record { subject = "wasmbus.rpc.default.MECHO"; reply = some "inbox"; payload = 1 ∷ [] }

handle_message_guarded_example :
    (handle_message lattice runtime instance message [] ≡ [])
    ⊎ (((g : Genuine lattice runtime instance message.payload) × (ltb lattice.chunk_threshold
              g.invocation.content_length
            ≡ true)
          × (handle_message lattice runtime instance message []
              ≡ Effect.fetched g.invocation.id ∷ []))
        ⊎ Admitted lattice runtime instance message.payload)
handle_message_guarded_example = handle_message_guarded lattice runtime instance message []

call-handle_call_example :
    (call_operation_with_payload lattice handler shared none "http/Serve" (1 ∷ 2 ∷ []) []).0
    ≡ ok (ok (1 ∷ 2 ∷ 7 ∷ []))
unfolding prepare package_of resolve_target ensure_actor_capability lookup handle_call
    handle_invocation accept check_length request_body respond chunk_response request_of
call-handle_call_example =
    call-handle_call lattice runtime instance handler shared none "http/Serve" (1 ∷ 2 ∷ [])
      (1 ∷ 2 ∷ []) (1 ∷ 2 ∷ 7 ∷ []) (invocation_with (1 ∷ 2 ∷ [])) (ok (1 ∷ 2 ∷ 7 ∷ [])) [] []
      (omega arith) (omega arith) refl refl refl refl refl refl (omega arith) refl refl refl
