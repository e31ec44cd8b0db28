-- ===== src/Handler/Bus.antt =====
-- `impl Bus for Handler` of handler.rs: the targets that an actor selects, and its calls.
pub mod Targets
pub mod Agreement
use kasmcloud.Prelude.{
  ℕ, String, Bool, true, false, Option, none, some, List, [], ◌∷◌, Result, ok, err, Error, anyhow,
  Action, pure, raise, lift, gets, context, add_context, to_string, map_err, ◌>>=◌, ◌>>◌, length,
  ltb, if◌then◌else◌,
}
use kasmcloud.Map.{Map, lookup, insert, remove, contains_key}
use kasmcloud.External.{Bytes, TargetEntity, ActorIdentifier, TargetInterface}
use kasmcloud.External.Effects.{Trace, Effect, perform}
use kasmcloud.External.Lattice.{Lattice}
use kasmcloud.Handler.{Handler, Shared, Links}
use kasmcloud.Handler.Invoke.{
  prepare, chunk_invocation, request_of, read_response, call_operation_with_payload, unwrap_call,
}

abbrev binds : Links → String → String → Bool
binds links namespace binding = elim (lookup namespace links) [
  | none ↦ false
  | some bindings ↦ contains_key binding bindings
]

-- `to_identifier` is wasmcloud_runtime's conversion of a text to an ActorIdentifier.
unfoldable pub identify_wasmbus_target :
    (String → ActorIdentifier) → Links → String → String → TargetEntity
identify_wasmbus_target to_identifier links binding namespace =
    if binds links namespace binding
    then TargetEntity.link (some binding)
    else TargetEntity.actor (to_identifier namespace)

unfoldable pub insert_all :
    List TargetInterface → TargetEntity → Map TargetEntity → Map TargetEntity
insert_all [] target m = m
insert_all (i ∷ is) target m = insert_all is target (insert i target m)

unfoldable pub remove_all : List TargetInterface → Map TargetEntity → Map TargetEntity
remove_all [] m = m
remove_all (i ∷ is) m = remove_all is (remove i m)

unfoldable pub set_target : Option TargetEntity → List TargetInterface → Shared → Shared
unfolding insert_all remove_all
set_target (some target) interfaces shared = record shared {
  targets = insert_all interfaces target shared.targets;
}
set_target none interfaces shared = record shared { targets = remove_all interfaces shared.targets }

-- `map_err(|e| e.to_string())` on each step
abbrev pub as_text : {A : Type 0} → Action Trace Error A → Action Trace String A
as_text m t = let (r, t') = m t in (map_err to_string r, t')

module _ (L : Lattice) (h : Handler) where
  abbrev pub deliver : Result String Bytes → Action Trace String (Unit {0})
  deliver (err e) = raise e
  deliver (ok msg) =
      perform (Effect.replied msg)
        λ t. map_err to_string (context "failed to write reply" (L.write_reply msg t))

  -- The future that `call` returns; `read` is what comes of reading the request to its end.
  unfoldable pub call :
      Shared → Option TargetEntity → String → Result Error Bytes → Action Trace String (Unit {0})
  call shared target operation read = do
    request ← lift (map_err to_string (context "failed to read request" read))
    injector ← gets L.injector
    let needs_chunking = ltb L.chunk_threshold (length request)
    invocation ← as_text (prepare L h shared target operation request)
    sent ← as_text (chunk_invocation L needs_chunking invocation)
    payload ←
        lift (map_err to_string (context "failed to encode invocation" (L.encode_invocation sent)))
    let req = request_of L h target needs_chunking payload sent.target injector
    res ←
        perform (Effect.requested req)
          λ t. map_err to_string (context "failed to call provider" (L.send_request req t))
    response ←
        lift (
          map_err to_string
            (context "failed to decode invocation response" (L.decode_response res)))
    reply ← as_text (read_response L sent response)
    deliver reply

  unfoldable pub call_sync :
      Shared → Option TargetEntity → String → Bytes → Action Trace Error Bytes
  call_sync shared target operation request t =
      let (r, t') = call_operation_with_payload L h shared target operation request t in
      (unwrap_call "failed to call linked provider" "provider call failed" r, t')
