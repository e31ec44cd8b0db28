-- ===== src/Apis.antt =====
-- crates/apis/src/v1alpha1: the custom resources. A condition, which the program never fills in, and
-- a time are texts.
use kasmcloud.Prelude.{ℕ, ℤ, String, Option, List}
use kasmcloud.Map.{Map}

-- claims.rs
pub record Claims : Type 0 where
  pub issuer : String
  pub subject : String
  pub issued_at : String
  pub not_before : Option String
  pub expires : Option String

-- actor.rs
pub record ActorSpec : Type 0 where
  pub host : String
  pub image : String
  pub replicas : ℤ

pub record ActorStatus : Type 0 where
  pub public_key : String
  pub descriptive_name : Option String
  pub caps : Option (List String)
  pub capability_provider : Option (List String)
  pub call_alias : Option String
  pub claims : Claims
  pub version : Option String
  pub reversion : Option ℤ
  pub conditions : List String
  pub replicas : ℤ
  pub available_replicas : ℤ

-- provider.rs
pub record ProviderSpec : Type 0 where
  pub host : String
  pub image : String
  pub link : String

pub record ProviderStatus : Type 0 where
  pub public_key : String
  pub contract_id : String
  pub descriptive_name : Option String
  pub claims : Claims
  pub architecture_targets : List String
  pub vendor : String
  pub version : Option String
  pub reversion : Option ℤ
  pub conditions : List String
  pub instance_id : String

-- link.rs
pub record Source : Type 0 where
  pub key : String
  pub name : String

pub record LinkSpec : Type 0 where
  pub link_name : String
  pub provider : Source
  pub actor : Source
  pub contract_id : String
  pub values : Map String

pub record LinkStatus : Type 0 where
  pub provider_key : String
  pub actor_key : String
  pub link_name : String
  pub conditions : List String

-- host.rs
pub record HostProviderStatus : Type 0 where
  pub count : ℕ

pub record HostActorStatus : Type 0 where
  pub count : ℕ
  pub instance_count : ℕ

pub record KasmCloudHostStatus : Type 0 where
  pub kube_node_name : String
  pub public_key : String
  pub cluster_public_key : String
  pub cluster_issuers : List String
  pub pre_instance : String
  pub instance : String
  pub providers : HostProviderStatus
  pub actors : HostActorStatus

-- The resources that `kube::CustomResource` derives: a name, a specification and a status.
pub record Actor : Type 0 where
  pub name : String
  pub spec : ActorSpec
  pub status : Option ActorStatus

pub record Provider : Type 0 where
  pub name : String
  pub spec : ProviderSpec
  pub status : Option ProviderStatus

pub record Link : Type 0 where
  pub name : String
  pub spec : LinkSpec
  pub status : Option LinkStatus
