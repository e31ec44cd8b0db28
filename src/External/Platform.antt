-- ===== src/External/Platform.antt =====
-- The services that the host and the controllers use beside the lattice: hashing, registries, NATS
-- subscriptions, identifiers, processes, and the encoders of what is sent.
use kasmcloud.Prelude.{ℕ, String, Option, List, Result, Error}
use kasmcloud.External.{Bytes, Child, Claims, ActorMetadata, ProviderMetadata, LinkDefinition}
use kasmcloud.External.Effects.{Trace}

-- wasmcloud_core::HostData, without the fields that the program always fills in with none or false
pub record HostData : Type 0 where
  pub host_id : String
  pub lattice_rpc_prefix : String
  pub link_name : String
  pub lattice_rpc_user_jwt : String
  pub lattice_rpc_user_seed : String
  pub lattice_rpc_url : String
  pub instance_id : String
  pub provider_key : String
  pub link_definitions : List LinkDefinition
  pub default_rpc_timeout_ms : Option ℕ
  pub cluster_issuers : List String
  pub invocation_seed : String
  pub log_level : Option String

pub record Platform : Type 0 where
  -- sha2's digest of a text, in upper-case hex
  pub sha256_hex : String → String
  -- wasmcloud_host::fetch_actor, then wasmcloud_runtime::Actor::new and its claims
  pub fetch_actor : String → Trace → Result Error Bytes
  pub new_actor : Bytes → Result Error (Option (Claims ActorMetadata))
  -- `rpc_nats.queue_subscribe`, `Ulid::new`, `Uuid::from_u128`
  pub queue_subscribe : String → Trace → Result Error (Unit {0})
  pub new_ulid : Trace → String
  pub uuid_of : String → String
  -- wasmcloud_host::fetch_provider: the file and its claims
  pub fetch_provider : String → String → Trace → Result Error (String × Claims ProviderMetadata)
  -- rmp_serde, serde_json and base64
  pub encode_linkdef : LinkDefinition → Result Error Bytes
  pub encode_host_data : HostData → Result Error Bytes
  pub base64 : Bytes → Bytes
  pub shutdown_payload : String → Result Error Bytes
  -- the provider's process and the writes to its standard input
  pub spawn : String → Trace → Result Error Child
  pub take_stdin : Trace → Result Error (Unit {0})
  pub write_stdin : Bytes → Trace → Result Error (Unit {0})
  pub close_stdin : Trace → Result Error (Unit {0})
