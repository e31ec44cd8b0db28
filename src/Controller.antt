-- ===== src/Controller.antt =====
-- src/main.rs: the reconcilers that the controllers run on the resources of a cluster.
pub mod Links
pub mod Status
pub mod Workloads
pub mod Events
pub mod Program
use kasmcloud.Prelude.{ℕ, String, List, Option, Result, Error, ok, err}
use kasmcloud.Map.{Map}
use kasmcloud.External.{LinkDefinition}
use kasmcloud.Apis.{Actor, Provider, LinkStatus, ActorStatus, ProviderStatus, KasmCloudHostStatus}
use kasmcloud.Host.{Host}

-- kube::runtime::controller::Action
pub data Next : Type 0 where
  await_change : Next
  requeue : ℕ → Next

-- A status that was sent to the API server.
pub data Patch : Type 0 where
  link_status : String → LinkStatus → Patch
  actor_status : String → ActorStatus → Patch
  provider_status : String → ProviderStatus → Patch
  host_status : String → KasmCloudHostStatus → Patch

-- `links` counts, for each link id, the link resources that stand behind one definition. `patches`
-- is what was sent to the API server, newest first.
pub record Ctx : Type 0 where
  pub host : Host
  pub links : Map (LinkDefinition × List String)
  pub patches : List Patch

-- The API server's answers to `get`.
pub record Cluster : Type 0 where
  pub get_actor : String → List Patch → Result Error Actor
  pub get_provider : String → List Patch → Result Error Provider
