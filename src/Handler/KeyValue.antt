-- ===== src/Handler/KeyValue.antt =====
-- `impl KeyValueAtomic for Handler` and `impl KeyValueReadWrite for Handler` of handler.rs. A value
-- that is written comes as the outcome of reading it to its end.
pub mod Permission
pub mod Bounds
use kasmcloud.Prelude.{
  ℕ, ◌^◌, ℤ, pos, negsuc, String, Bool, true, false, Option, none, some, List, [], ◌∷◌, Result, ok,
  err, Error, anyhow, Action, pure, raise, lift, ensure, context, add_context, ◌>>=◌, ◌>>◌, length,
  ltb, is_empty, if◌then◌else◌,
}
use kasmcloud.Map.{lookup}
use kasmcloud.External.{Bytes, TargetEntity}
use kasmcloud.External.Effects.{Trace}
use kasmcloud.External.Lattice.{Lattice}
use kasmcloud.External.Compat.{Compat, IncrementRequest, GetResponse, SetRequest}
use kasmcloud.Handler.{Handler, Shared}
use kasmcloud.Handler.Invoke.{call_operation}
use kasmcloud.Handler.Response.{decode_provider_response, decode_empty_provider_response}

abbrev out_of_range : Error
out_of_range = anyhow "out of range integral type conversion attempted"

-- `u64` to `i32`, and `i32` to `u64`
unfoldable pub to_i32 : ℕ → Result Error ℕ
to_i32 n = if ltb n (2 ^ 31) then ok n else err out_of_range

unfoldable pub to_unsigned : ℤ → Result Error ℕ
to_unsigned (pos n) = ok n
to_unsigned (negsuc n) = err out_of_range

-- `TargetInterface::{WasiKeyvalueAtomic, WasiKeyvalueReadwrite}`
abbrev pub atomic : String
atomic = "WasiKeyvalueAtomic"

abbrev pub readwrite : String
readwrite = "WasiKeyvalueReadwrite"

module _ (L : Lattice) (K : Compat) (h : Handler) (shared : Shared) where
  -- `call_operation` at the target selected for an interface; only the default bucket is supported.
  abbrev pub in_bucket : String → String → String → Result Error Bytes → Action Trace Error Bytes
  in_bucket bucket interface method encoded =
      if is_empty bucket
      then call_operation L h shared (lookup interface shared.targets) method encoded
      else raise (anyhow "buckets not currently supported")

  unfoldable pub increment : String → String → ℕ → Action Trace Error ℕ
  increment bucket key delta = do
    ensure (is_empty bucket) "buckets not currently supported"
    value ← lift (context "delta does not fit in `i32`" (to_i32 delta))
    res ←
        in_bucket bucket atomic "wasmcloud:keyvalue/KeyValue.Increment"
          (K.encode_increment (record { key = key; value = value }))
    new ← lift (decode_provider_response K.decode_i32 res)
    lift (context "result does not fit in `u64`" (to_unsigned new))

  -- A value that is found, with its length.
  abbrev pub found : GetResponse → Result Error (Bytes × ℕ)
  found r = if r.exists then ok (r.value, length r.value) else err (anyhow "key not found")

  unfoldable pub get : String → String → Action Trace Error (Bytes × ℕ)
  get bucket key = do
    res ← in_bucket bucket readwrite "wasmcloud:keyvalue/KeyValue.Get" (K.encode_key key)
    response ← lift (decode_provider_response K.decode_get res)
    lift (found response)

  unfoldable pub set : String → String → Result Error String → Action Trace Error (Unit {0})
  set bucket key read = do
    ensure (is_empty bucket) "buckets not currently supported"
    buf ← lift (context "failed to read value" read)
    res ←
        in_bucket bucket readwrite "wasmcloud:keyvalue/KeyValue.Set"
          (K.encode_set (record { key = key; value = buf; expires = 0 }))
    lift (decode_empty_provider_response K.decode_unit res)

  unfoldable pub delete : String → String → Action Trace Error (Unit {0})
  delete bucket key = do
    res ← in_bucket bucket readwrite "wasmcloud:keyvalue/KeyValue.Del" (K.encode_key key)
    deleted ← lift (decode_provider_response K.decode_bool res)
    ensure deleted "key not found"

  unfoldable pub exists : String → String → Action Trace Error Bool
  exists bucket key = do
    res ← in_bucket bucket readwrite "wasmcloud:keyvalue/KeyValue.Contains" (K.encode_key key)
    lift (decode_provider_response K.decode_bool res)

  unfoldable pub compare_and_swap : String → String → ℕ → ℕ → Action Trace Error Bool
  compare_and_swap bucket key old new = raise (anyhow "not supported")
