-- ===== src/Controller/Events.antt =====
-- The controllers that main.rs runs: one step for each event that the finalizers of kube hand on.
pub mod Kept
pub mod Untouched
pub mod Accorded
pub mod Sound
pub mod Accounted
use kasmcloud.Prelude.{ℕ, String, Bool, true, false, ◌==◌, if◌then◌else◌}
use kasmcloud.External.Lattice.{Lattice}
use kasmcloud.External.Platform.{Platform}
use kasmcloud.External.Clock.{Clock}
use kasmcloud.Apis.{Actor, Provider, Link}
use kasmcloud.Controller.{Next, await_change, Ctx, Cluster}
use kasmcloud.Controller.Links.{add_link, delete_link}
use kasmcloud.Controller.Workloads.{
  reconcile_actor, delete_actor, reconcile_provider, delete_provider, update_host_status,
}

-- kube::runtime::finalizer::Event
pub data Event (K : Type 0) : Type 0 where
  apply : K → Event K
  cleanup : K → Event K

module _ (L : Lattice) (P : Platform) (T : Clock) (width : ℕ) (node : String) where
  unfoldable pub on_link : Cluster → Event Link → Ctx → Next × Ctx
  on_link C (apply link) ctx = add_link L P C link ctx
  on_link C (cleanup link) ctx = delete_link L P link ctx

  abbrev with_status : Next × Ctx → Next × Ctx
  with_status (n, ctx) = (n, update_host_status node ctx)

  -- Actors and providers of other hosts are left alone.
  unfoldable pub on_actor : Event Actor → Ctx → Next × Ctx
  on_actor (apply actor) ctx =
      if actor.spec.host == ctx.host.name
      then with_status (reconcile_actor P T width actor ctx)
      else (await_change, ctx)
  on_actor (cleanup actor) ctx =
      if actor.spec.host == ctx.host.name
      then with_status (delete_actor actor ctx)
      else (await_change, ctx)

  unfoldable pub on_provider : Event Provider → Ctx → Next × Ctx
  on_provider (apply provider) ctx =
      if provider.spec.host == ctx.host.name
      then reconcile_provider P T width provider ctx
      else (await_change, ctx)
  on_provider (cleanup provider) ctx =
      if provider.spec.host == ctx.host.name
      then delete_provider P provider ctx
      else (await_change, ctx)
