-- ===== src/Handler.antt =====
-- crates/host/src/handler.rs: what an actor asks of the lattice. The cells that a handler shares
-- with its group, its host and its clones (`links`, `aliases`, `targets`) are arguments, read once under their locks.
pub mod Capability
pub mod Target
pub mod Bus
pub mod Invoke
pub mod Response
pub mod Guarded
pub mod KeyValue
pub mod Messaging
pub mod Logging
pub mod Blobstore
use Prim.Native.Char.{Char, code}
use kasmcloud.Prelude.{
  ℕ, String, Bool, Option, none, some, List, [], ◌∷◌, Result, ok, err, Error, ◌==◌, if◌then◌else◌,
  nat_eq,
}
use kasmcloud.Map.{Map}
use kasmcloud.External.{KeyPair, Claims, ActorMetadata, WasmCloudEntity, TargetEntity}

-- package -> target -> entity
abbrev pub Links : Type 0
Links = Map (Map WasmCloudEntity)

pub record Handler : Type 0 where
  pub lattice_prefix : String
  pub cluster_key : KeyPair
  pub host_key : KeyPair
  pub claims : Claims ActorMetadata
  pub origin : WasmCloudEntity

-- The cells behind `Arc`s: `links` belongs to the actor group, `aliases` to the host, and `targets`
-- to the handler of the actor and all its clones, one for each instance.
pub record Shared : Type 0 where
  pub links : Links
  pub aliases : Map WasmCloudEntity
  pub targets : Map TargetEntity

-- `WasmCloudEntity::default()` with a public key
abbrev pub entity_of_key : String → WasmCloudEntity
entity_of_key k = record { public_key = k; link_name = ""; contract_id = "" }
