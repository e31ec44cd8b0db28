-- ===== src/Tests/Capabilities.antt =====
-- Witnesses for the theorems on the key-value store and on messaging.
use kasmcloud.Prelude.{◌^◌, ◌<◌, pos, String, ◌≡◌, refl, none, some, [], ◌∷◌, ok}
use kasmcloud.Map.{lookup}
use kasmcloud.External.{Bytes}
use kasmcloud.Handler.Capability.{ensure_actor_capability}
use kasmcloud.Handler.Target.{resolve_target}
use kasmcloud.Handler.Invoke.{
  package_of, prepare, chunk_invocation, request_of, read_response, response_body, to_usize,
  call_operation_with_payload, call_operation,
}
use kasmcloud.Handler.Invoke.Safety.{Permitted}
use kasmcloud.Handler.Response.{decode_provider_response}
use kasmcloud.Handler.Guarded.{Guarded}
use kasmcloud.Handler.KeyValue.{
  atomic, readwrite, to_i32, to_unsigned, increment, get, set, delete, exists,
}
use kasmcloud.Handler.KeyValue.Permission.{Allowed, keyvalue-Guarded}
use kasmcloud.Handler.KeyValue.Bounds.{asked, increment-bounds}
use kasmcloud.Handler.Messaging.{BrokerMessage, consumer, request_multi, publish}
use kasmcloud.Handler.Logging.{log}
use kasmcloud.Handler.Capability.{MayCall}
use kasmcloud.External.Effects.{LogLevel}
use kasmcloud.Handler.Messaging.Permission.{messaging-Guarded}
use kasmcloud.Actor.{
  handle_call, handle_invocation, accept, check_length, request_body, respond, chunk_response,
}
use kasmcloud.Tests.Fixture.{handler, lattice, compat, with_store}
use kasmcloud.Tests.Handlers.{lattice-KeepsTarget}

keyvalue-Guarded_example :
    Guarded
      (Allowed lattice compat handler with_store "" atomic "wasmcloud:keyvalue/KeyValue.Increment")
      (increment lattice compat handler with_store "" "hits" 5)
    × Guarded
        (Allowed lattice compat handler with_store "" readwrite "wasmcloud:keyvalue/KeyValue.Get")
        (get lattice compat handler with_store "" "hits")
    × Guarded
        (Allowed lattice compat handler with_store "" readwrite "wasmcloud:keyvalue/KeyValue.Set")
        (set lattice compat handler with_store "" "hits" (ok "5"))
    × Guarded
        (Allowed lattice compat handler with_store "" readwrite "wasmcloud:keyvalue/KeyValue.Del")
        (delete lattice compat handler with_store "" "hits")
    × Guarded
        (Allowed lattice compat handler with_store "" readwrite
          "wasmcloud:keyvalue/KeyValue.Contains")
        (exists lattice compat handler with_store "" "hits")
keyvalue-Guarded_example =
    keyvalue-Guarded lattice compat handler with_store "" "hits" 5 (ok "5") lattice-KeepsTarget

increment-bounds_example :
    (◌≡◌ {A = String} "" "")
    × (5 < 2 ^ 31)
    × ((res : Bytes) × ((asked lattice compat handler with_store "hits" 5 []).0 ≡ ok res)
        × (decode_provider_response compat.decode_i32 res ≡ ok (pos 3)))
    × ((increment lattice compat handler with_store "" "hits" 5 []).1
        ≡ (asked lattice compat handler with_store "hits" 5 []).1)
unfolding increment call_operation call_operation_with_payload prepare package_of resolve_target
    ensure_actor_capability lookup chunk_invocation request_of read_response response_body to_usize
    to_i32 to_unsigned decode_provider_response handle_call handle_invocation accept check_length
    request_body respond chunk_response
increment-bounds_example = increment-bounds lattice compat handler with_store "hits" 5 [] "" 3 refl

abbrev note : BrokerMessage
note = record { subject = "news"; reply_to = none; body = some (1 ∷ []) }

messaging-Guarded_example :
    Guarded
      (Permitted handler with_store
        (lookup consumer with_store.targets)
        "wasmcloud:messaging/Messaging.Request")
      (request_multi lattice compat handler with_store note.subject note.body 1000 1)
    × Guarded
        (Permitted handler with_store
          (lookup consumer with_store.targets)
          "wasmcloud:messaging/Messaging.Publish")
        (publish lattice compat handler with_store note)
    × Guarded
        (MayCall handler.claims.metadata "wasmcloud:builtin:logging")
        (log "wasmcloud:builtin:logging" handler LogLevel.critical "news" "lost")
messaging-Guarded_example =
    messaging-Guarded lattice compat handler with_store lattice-KeepsTarget note 1000 1
      "wasmcloud:builtin:logging" LogLevel.critical "news" "lost"
