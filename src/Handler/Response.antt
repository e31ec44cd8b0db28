-- ===== src/Handler/Response.antt =====
-- `decode_provider_response` and `decode_empty_provider_response` of handler.rs.
use kasmcloud.Prelude.{[], ◌∷◌, Result, ok, err, Error, anyhow, context, nat_eq, if◌then◌else◌}
use kasmcloud.External.{Bytes}

-- A response may be marked by its first byte: 0x7f for CBOR, 0xc1 for MessagePack.
unfoldable pub decode_provider_response :
    {T : Type 0} → (Bytes → Result Error T) → Bytes → Result Error T
decode_provider_response decode [] = context "failed to decode response" (decode [])
decode_provider_response decode (b ∷ buf) =
    if nat_eq b 127
    then err (anyhow "CBOR responses are not supported")
    else if nat_eq b 193
    then context "failed to decode response" (decode buf)
    else context "failed to decode response" (decode (b ∷ buf))

unfoldable pub decode_empty_provider_response :
    (Bytes → Result Error (Unit {0})) → Bytes → Result Error (Unit {0})
decode_empty_provider_response decode [] = ok tt
decode_empty_provider_response decode (b ∷ buf) = decode_provider_response decode (b ∷ buf)
