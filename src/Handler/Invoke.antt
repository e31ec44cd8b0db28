-- ===== src/Handler/Invoke.antt =====
-- `call_operation_with_payload`, `call_operation` and `injector_to_headers` of handler.rs.
pub mod Safety
use Prim.Native.Char.{Char, code}
use kasmcloud.Prelude.{
  ℕ, String, Bool, true, false, Option, none, some, List, [], ◌∷◌, Result, ok, err, Error, anyhow,
  Action, pure, raise, lift, gets, ask, ensure, context, context_none, add_context, map_err, ◌>>=◌,
  ◌>>◌, length, ltb, leb, nat_eq, format, ◌==◌, if◌then◌else◌,
}
use kasmcloud.Map.{lookup}
use kasmcloud.External.{
  Bytes, WasmCloudEntity, TargetEntity, Invocation, InvocationResponse, Request,
}
use kasmcloud.External.Effects.{Trace, Effect, perform}
use kasmcloud.External.Lattice.{Lattice}
use kasmcloud.Handler.{Handler, Shared}
use kasmcloud.Handler.Capability.{ensure_actor_capability}
use kasmcloud.Handler.Target.{resolve_target}

-- the pair of `split_once`, with one more character in front of its first part
abbrev push_front : Char → Option (String × String) → Option (String × String)
push_front d none = none
push_front d (some (a, b)) = some (String.◌∷◌ d a, b)

-- `str::split_once` of std at one character
unfoldable pub split_once : ℕ → String → Option (String × String)
split_once c String.[] = none
split_once c (String.◌∷◌ d s) =
    if nat_eq (code d) c then some ("", s) else push_front d (split_once c s)

unfoldable pub package_of : String → Result Error String
unfolding split_once
package_of operation = elim (split_once b'/' operation) [
  | none ↦ err (anyhow "failed to parse operation")
  | some (name, _) ↦ ok name
]

-- The subject on which the target listens.
unfoldable pub topic_of : String → Option TargetEntity → WasmCloudEntity → String
topic_of prefix (some (TargetEntity.actor _)) e =
    format ("wasmbus.rpc." ∷ prefix ∷ "." ∷ e.public_key ∷ [])
topic_of prefix _ e = format ("wasmbus.rpc." ∷ prefix ∷ "." ∷ e.public_key ∷ "." ∷ e.link_name ∷ [])

-- Both ways in which a call fails become errors, each with its context.
abbrev pub unwrap_call : String → String → Result Error (Result String Bytes) → Result Error Bytes
unwrap_call failed refused (err e) = err (add_context failed e)
unwrap_call failed refused (ok (err e)) = err (add_context refused (anyhow e))
unwrap_call failed refused (ok (ok msg)) = ok msg

module _ (L : Lattice) where
  open L use {chunk_threshold, chunk_rpc_extra_time, usize_max}

  abbrev header_of : String × String → Option (String × String)
  header_of (k, v) = elim (L.header_name k) [
    | none ↦ none
    | some name ↦ elim (L.header_value v) [ none ↦ none | some value ↦ some (name, value) ]
  ]

  abbrev push_header : Option (String × String) → List (String × String) → List (String × String)
  push_header none hs = hs
  push_header (some h) hs = h ∷ hs

  -- Headers that do not parse are dropped.
  unfoldable pub injector_to_headers : List (String × String) → List (String × String)
  injector_to_headers [] = []
  injector_to_headers (kv ∷ rest) = push_header (header_of kv) (injector_to_headers rest)

  -- The chunked body goes to the store, and the invocation is sent without it.
  unfoldable pub chunk_invocation : Bool → Invocation → Action Trace Error Invocation
  chunk_invocation true inv t =
      let (r, t') = perform (Effect.chunked inv.id inv.msg) (L.chunkify inv.id inv.msg) t in
      elim r [
        | ok _ ↦ (ok (record inv { msg = [] }), t')
        | err e ↦ (err (add_context "failed to chunk invocation" e), t')
      ]
  chunk_invocation false inv t = (ok inv, t)

  -- The body of a response: in the store when it is long, and else of the announced length.
  unfoldable pub response_body : InvocationResponse → Action Trace Error Bytes
  response_body r t =
      if ltb chunk_threshold r.content_length
      then perform (Effect.fetched r.invocation_id)
          (λ t. context "failed to dechunk response" (L.get_unchunkified r.invocation_id t)) t
      else if nat_eq r.content_length (length r.msg)
      then (ok r.msg, t)
      else (err (anyhow "message size mismatch"), t)

  -- `usize::try_from`
  unfoldable pub to_usize : ℕ → Result Error (Unit {0})
  to_usize n =
      if leb n usize_max
      then ok tt
      else err (
          add_context "content length does not fit in usize"
            (anyhow "out of range integral type conversion attempted"))

  abbrev reply_of : Option String → Bytes → Result String Bytes
  reply_of none msg = ok msg
  reply_of (some error) msg = err error

  unfoldable pub read_response :
      Invocation → InvocationResponse → Action Trace Error (Result String Bytes)
  unfolding response_body to_usize
  read_response inv r = do
    ensure (r.invocation_id == inv.id) "invocation ID mismatch"
    lift (to_usize r.content_length)
    msg ← response_body r
    pure (reply_of r.error msg)

  module _ (h : Handler) where
    unfoldable pub request_of :
        Option TargetEntity → Bool → Bytes → WasmCloudEntity → List (String × String) → Request
    unfolding topic_of injector_to_headers
    request_of target needs_chunking payload e injector = record {
      topic = topic_of h.lattice_prefix target e;
      payload = payload;
      timeout = if needs_chunking then some chunk_rpc_extra_time else none;
      headers = injector_to_headers injector;
    }

    -- What comes before anything is sent: the target, the invocation and the capability check.
    unfoldable pub prepare :
        Shared → Option TargetEntity → String → Bytes → Action Trace Error Invocation
    unfolding package_of
    prepare shared target operation request = do
      namespace ← lift (package_of operation)
      e ← lift (resolve_target target (lookup namespace shared.links) shared.aliases)
      inv ← ask λ t.
          L.new_invocation t h.cluster_key h.host_key h.origin e operation request (L.injector t)
      lift (ensure_actor_capability h.claims.metadata inv.target.contract_id)
      pure inv

    unfoldable pub call_operation_with_payload :
        Shared → Option TargetEntity → String → Bytes → Action Trace Error (Result String Bytes)
    call_operation_with_payload shared target operation request = do
      injector ← gets L.injector
      let needs_chunking = ltb chunk_threshold (length request)
      invocation ← prepare shared target operation request
      sent ← chunk_invocation needs_chunking invocation
      payload ← lift (context "failed to encode invocation" (L.encode_invocation sent))
      let req = request_of target needs_chunking payload sent.target injector
      res ←
          perform (Effect.requested req)
            λ t. context "failed to publish on NATS topic" (L.send_request req t)
      response ← lift (context "failed to decode invocation response" (L.decode_response res))
      read_response sent response

    -- `call_operation`, for a request that rmp_serde has encoded
    unfoldable pub call_operation :
        Shared → Option TargetEntity → String → Result Error Bytes → Action Trace Error Bytes
    call_operation shared target operation encoded = do
      request ← lift (context "failed to encode request" encoded)
      λ t.
          let (r, t') = call_operation_with_payload shared target operation request t in
          (unwrap_call "failed to call target entity" "call failed" r, t')
