-- ===== src/External/Runtime.antt =====
-- wasmcloud_runtime's actor instance and the HTTP types of wasmcloud_compat, as actor.rs calls them.
-- `Compat` and `Wire` are the decoded request and response, `Http` and `Response` those of `http`.
use kasmcloud.Prelude.{String, List, Result, Error}
use kasmcloud.External.{Bytes}
use kasmcloud.External.Effects.{Trace}

pub record Runtime (Compat Http Response Wire : Type 0) : Type 0 where
  -- `pool.instantiate`, `instance.stderr`
  pub instantiate : Trace → Result Error (Unit {0})
  pub set_stderr : Trace → Result Error (Unit {0})
  -- the HTTP server's path
  pub decode_http_request : Bytes → Result Error Compat
  pub to_http_request : Compat → Result Error Http
  pub into_incoming_http : Trace → Result Error (Unit {0})
  pub handle : Http → Trace → Result Error Response
  pub from_http : Response → Result Error Wire
  pub encode_http_response : Wire → Result Error Bytes
  -- `instance.call`, and what the actor writes to the response while it runs
  pub call : String → Bytes → Trace → Result Error (Result String (Unit {0}))
  pub writes : String → Bytes → Trace → List Bytes
