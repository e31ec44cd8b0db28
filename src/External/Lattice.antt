-- ===== src/External/Lattice.antt =====
-- The lattice: NATS, the chunk store and the codec of rmp_serde, as the program calls them.
use kasmcloud.Prelude.{ℕ, String, Option, List, Result, Error}
use kasmcloud.External.{Bytes, KeyPair, WasmCloudEntity, Invocation, InvocationResponse, Request}
use kasmcloud.External.Effects.{Trace}

pub record Lattice : Type 0 where
  -- wasmcloud_core::chunking::{CHUNK_THRESHOLD_BYTES, CHUNK_RPC_EXTRA_TIME}; usize::MAX
  pub chunk_threshold : ℕ
  pub chunk_rpc_extra_time : ℕ
  pub usize_max : ℕ
  -- `TraceContextInjector::default_with_span`, and what async_nats accepts as a header
  pub injector : Trace → List (String × String)
  pub header_name : String → Option String
  pub header_value : String → Option String
  -- `Invocation::new`, `Invocation::validate_antiforgery`
  pub new_invocation :
      Trace
      → KeyPair
      → KeyPair
      → WasmCloudEntity
      → WasmCloudEntity
      → String
      → Bytes
      → List (String × String)
      → Result Error Invocation
  pub validate_antiforgery : Invocation → List String → Result Error (Unit {0})
  -- rmp_serde
  pub encode_invocation : Invocation → Result Error Bytes
  pub decode_invocation : Bytes → Result Error Invocation
  pub encode_response : InvocationResponse → Result Error Bytes
  pub decode_response : Bytes → Result Error InvocationResponse
  -- ChunkEndpoint
  pub chunkify : String → Bytes → Trace → Result Error (Unit {0})
  pub chunkify_response : String → Bytes → Trace → Result Error (Unit {0})
  pub get_unchunkified : String → Trace → Result Error Bytes
  -- async_nats::Client
  pub send_request : Request → Trace → Result Error Bytes
  pub publish : String → Bytes → Trace → Result Error (Unit {0})
  -- a write to the reply's socket
  pub write_reply : Bytes → Trace → Result Error (Unit {0})
