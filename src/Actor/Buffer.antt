-- ===== src/Actor/Buffer.antt =====
-- `AsyncBytesMut` of actor.rs: the buffer behind a mutex that an actor writes its response to.
use kasmcloud.Prelude.{
  ℕ, Bool, false, List, [], ◌∷◌, ◌++◌, Result, ok, err, Error, anyhow, add_context, length,
  if◌then◌else◌,
}
use kasmcloud.External.{Bytes}

-- `poisoned` is std's mark on a mutex whose holder has panicked.
pub record AsyncBytesMut : Type 0 where
  pub bytes : Bytes
  pub poisoned : Bool

abbrev pub default : AsyncBytesMut
default = record { bytes = []; poisoned = false }

abbrev poison_error : Error
poison_error = anyhow "poisoned lock: another task failed inside"

unfoldable pub poll_write : AsyncBytesMut → Bytes → Result Error ℕ × AsyncBytesMut
poll_write b buf =
    if b.poisoned
    then (err poison_error, b)
    else (ok (length buf), record b { bytes = b.bytes ++ buf })

-- `poll_flush` and `poll_shutdown`
abbrev pub poll_flush : AsyncBytesMut → Result Error (Unit {0})
poll_flush b = ok tt

-- `TryFrom<AsyncBytesMut> for Vec<u8>`
unfoldable pub into_bytes : AsyncBytesMut → Result Error Bytes
into_bytes b = if b.poisoned then err (add_context "failed to lock" poison_error) else ok b.bytes

write_from : AsyncBytesMut → List Bytes → AsyncBytesMut
unfolding poll_write
write_from b [] = b
write_from b (c ∷ cs) = write_from (poll_write b c).1 cs

-- The response of an actor that writes it piece by piece to a new buffer.
unfoldable pub write_chunks : List Bytes → AsyncBytesMut
unfolding write_from
write_chunks = write_from default
