-- ===== src/External.antt =====
-- What the program takes from other crates: wascap's claims, wasmcloud_core's entities,
-- invocations and link definitions, nkeys' key pairs. Only the fields that the program reads or
-- writes are kept. The services behind these types are in `External/Lattice` and the modules beside
-- it: records of functions, which the definitions take as arguments.
pub mod Effects
pub mod Lattice
pub mod Runtime
pub mod Platform
pub mod Clock
pub mod Compat
pub mod Blobs
pub mod Startup
use kasmcloud.Prelude.{ℕ, ℤ, String, Bool, Option, none, List, [], Result, Error}
use kasmcloud.Map.{Map}

abbrev pub Bytes : Type 0
Bytes = List ℕ

-- nkeys::KeyPair, by what it answers.
pub data KeyPairType : Type 0 where
  server cluster account user operator module_key service : KeyPairType

pub record KeyPair : Type 0 where
  pub public_key : String
  pub seed : Result Error String
  pub key_pair_type : KeyPairType

-- wascap::jwt::Actor
pub record ActorMetadata : Type 0 where
  pub name : Option String
  pub caps : Option (List String)
  pub provider : Bool
  pub rev : Option ℤ
  pub ver : Option String
  pub call_alias : Option String

-- wascap::jwt::CapabilityProvider; `target_hashes` by its keys
pub record ProviderMetadata : Type 0 where
  pub name : Option String
  pub capid : String
  pub vendor : String
  pub rev : Option ℤ
  pub ver : Option String
  pub target_hashes : Map String

-- wascap::jwt::Claims
pub record Claims (M : Type 0) : Type 0 where
  pub issuer : String
  pub subject : String
  pub issued_at : ℕ
  pub not_before : Option ℕ
  pub expires : Option ℕ
  pub metadata : Option M

-- wasmcloud_core::WasmCloudEntity
pub record WasmCloudEntity : Type 0 where
  pub public_key : String
  pub link_name : String
  pub contract_id : String

-- tokio::process::Child, by its process id
pub record Child : Type 0 where
  pub pid : ℕ

-- wasmcloud_runtime::capability::{ActorIdentifier, TargetEntity}; a key is its public key
pub data ActorIdentifier : Type 0 where
  key : String → ActorIdentifier
  alias : String → ActorIdentifier

pub data TargetEntity : Type 0 where
  link : Option String → TargetEntity
  actor : ActorIdentifier → TargetEntity

-- wasmcloud_runtime::capability::TargetInterface, by its name
abbrev pub TargetInterface : Type 0
TargetInterface = String

-- wasmcloud_core::Invocation
pub record Invocation : Type 0 where
  pub origin : WasmCloudEntity
  pub target : WasmCloudEntity
  pub operation : String
  pub msg : Bytes
  pub id : String
  pub content_length : ℕ

-- wasmcloud_core::InvocationResponse
pub record InvocationResponse : Type 0 where
  pub msg : Bytes
  pub invocation_id : String
  pub error : Option String
  pub content_length : ℕ

-- `InvocationResponse::default()`
abbrev pub default_response : InvocationResponse
default_response = record { msg = []; invocation_id = ""; error = none; content_length = 0 }

-- wasmcloud_control_interface::LinkDefinition
pub record LinkDefinition : Type 0 where
  pub actor_id : String
  pub provider_id : String
  pub link_name : String
  pub contract_id : String
  pub values : Map String

-- async_nats::Request
pub record Request : Type 0 where
  pub topic : String
  pub payload : Bytes
  pub timeout : Option ℕ
  pub headers : List (String × String)
