-- ===== src/Host.antt =====
-- crates/host/src/lib.rs, provider.rs and the records of actor.rs: the state of a host, without its
-- handles of services (`runtime`, `rpc_nats`, `registry_settings` and the like), which are arguments
-- of the definitions that use them. Each method
-- is one action on this state: its lock guards are held where the code holds them, and the code
-- keeps link operations apart by the controller's lock. `trace` is what the host has done to the
-- outside, newest first.
pub mod Links
pub mod Actors
pub mod Providers
pub mod Tables
pub mod Startup
pub mod Interleaving
use kasmcloud.Prelude.{ℕ, String, Bool, Option, List, Action, Result, Error}
use kasmcloud.Map.{Map}
use kasmcloud.External.{Child, Claims, ProviderMetadata, KeyPair, WasmCloudEntity, LinkDefinition}
use kasmcloud.External.Effects.{Trace}
use kasmcloud.Handler.{Handler, Links as LinkTable}
use kasmcloud.Actor.{ActorInstance}

pub record NatsConfig : Type 0 where
  pub url : String
  pub timeout : Option ℕ
  pub jwt : Option String
  pub key : Option KeyPair
  pub tls : Bool

pub record HostConfig : Type 0 where
  pub allow_file_load : Bool
  pub rpc_config : NatsConfig
  pub prov_rpc_config : NatsConfig
  pub lattice_prefix : String
  pub js_domain : Option String
  pub host_key : Option KeyPair
  pub cluster_key : Option KeyPair
  pub cluster_issuers : Option (List String)
  pub log_level : Option String

-- `pool_size` is the bound that the actor's instance pool was built with.
pub record Actor : Type 0 where
  pub image_ref : String
  pub handler : Handler
  pub pool_size : ℕ
  pub instances : List ActorInstance

pub record ActorGroup : Type 0 where
  pub public_key : String
  pub actors : Map Actor
  pub links : LinkTable

pub record ProviderInstance : Type 0 where
  pub child : Child
  pub id : String

pub record Provider : Type 0 where
  pub claims : Claims ProviderMetadata
  pub instances : Map ProviderInstance
  pub image_ref : String

pub record Host : Type 0 where
  pub name : String
  pub host_key : KeyPair
  pub lattice_prefix : String
  pub cluster_key : KeyPair
  pub cluster_issuers : List String
  pub config : HostConfig
  -- linkdef_hash -> LinkDefinition
  pub links : Map LinkDefinition
  -- name -> public key
  pub actor_keys : Map String
  -- public key -> ActorGroup
  pub actors : Map ActorGroup
  -- public key -> Provider
  pub providers : Map Provider
  pub aliases : Map WasmCloudEntity
  pub trace : Trace

-- A call of the outside, by the host.
abbrev pub outside : {E A : Type 0} → Action Trace E A → Action Host E A
outside m h = let (r, t') = m h.trace in (r, record h { trace = t' })
