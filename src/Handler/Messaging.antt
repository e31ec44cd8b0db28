-- ===== src/Handler/Messaging.antt =====
-- `impl Messaging for Handler` and `impl Logging for Handler` of handler.rs.
pub mod Permission
use kasmcloud.Prelude.{
  ℕ, ◌^◌, String, Bool, true, false, Option, none, some, List, [], ◌∷◌, Result, ok, err, Error,
  anyhow, Action, pure, raise, lift, ensure, context, unwrap_or, ◌>>=◌, ◌>>◌, ltb, if◌then◌else◌,
}
use kasmcloud.Map.{lookup}
use kasmcloud.External.{Bytes}
use kasmcloud.External.Effects.{Trace}
use kasmcloud.External.Lattice.{Lattice}
use kasmcloud.External.Compat.{Compat, RequestMessage, ReplyMessage, PubMessage}
use kasmcloud.Handler.{Handler, Shared}
use kasmcloud.Handler.Capability.{ensure_actor_capability}
use kasmcloud.Handler.Invoke.{call_operation}
use kasmcloud.Handler.Response.{decode_provider_response, decode_empty_provider_response}

-- wasmcloud_runtime::capability::messaging::types::BrokerMessage
pub record BrokerMessage : Type 0 where
  pub subject : String
  pub reply_to : Option String
  pub body : Option Bytes

-- `TargetInterface::WasmcloudMessagingConsumer`
abbrev pub consumer : String
consumer = "WasmcloudMessagingConsumer"

-- milliseconds to `u32`
unfoldable pub to_u32 : ℕ → Result Error ℕ
to_u32 n =
    if ltb n (2 ^ 32) then ok n else err (anyhow "out of range integral type conversion attempted")

module _ (L : Lattice) (K : Compat) (h : Handler) (shared : Shared) where
  -- The timeout is in milliseconds.
  unfoldable pub request : String → Option Bytes → ℕ → Action Trace Error BrokerMessage
  request subject body timeout = do
    timeout_ms ← lift (context "timeout milliseconds do not fit in `u32`" (to_u32 timeout))
    res ←
        call_operation L h shared (lookup consumer shared.targets)
          "wasmcloud:messaging/Messaging.Request"
          (K.encode_request
            (record { subject = subject; body = unwrap_or body []; timeout_ms = timeout_ms }))
    reply ← lift (decode_provider_response K.decode_reply res)
    pure (record { subject = reply.subject; reply_to = reply.reply_to; body = some reply.body })

  unfoldable pub request_multi :
      String → Option Bytes → ℕ → ℕ → Action Trace Error (List BrokerMessage)
  request_multi subject body timeout max_results =
      if ltb max_results 2
      then (request subject body timeout >>= λ res. pure (res ∷ []))
      else raise (anyhow "at most 1 result can be requested at the time")

  unfoldable pub publish : BrokerMessage → Action Trace Error (Unit {0})
  publish message = do
    res ←
        call_operation L h shared (lookup consumer shared.targets)
          "wasmcloud:messaging/Messaging.Publish"
          (K.encode_publish (record {
            subject = message.subject;
            reply_to = message.reply_to;
            body = unwrap_or message.body [];
          }))
    lift (decode_empty_provider_response K.decode_unit res)
