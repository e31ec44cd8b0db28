-- ===== src/Controller/Events/Untouched.antt =====
-- What the events of actors and providers leave of the links.
use kasmcloud.Prelude.{
  ℕ, String, ◌≡◌, refl, inl, inr, arith, Result-cases, Option-cases, Bool-cases, as_usize, is_empty,
  ◌==◌,
}
use kasmcloud.External.Lattice.{Lattice}
use kasmcloud.External.Platform.{Platform}
use kasmcloud.External.Clock.{Clock}
use kasmcloud.Apis.{Actor, Provider, ActorStatus, ProviderStatus}
use kasmcloud.Host.Actors as HostActors
use kasmcloud.Host.Providers.{start_provider, stop_provider}
use kasmcloud.Host.Tables.{start_provider-SameTables, stop_provider-SameTables}
use kasmcloud.Host.Links.Untouched.{links-reconcile_actor, links-remove_actor}
use kasmcloud.Controller.{Ctx}
use kasmcloud.Controller.Workloads.{
  report_actor, report_provider, reconcile_actor, reconcile_provider, delete_actor, delete_provider,
  stop_status, update_host_status,
}
use kasmcloud.Controller.Events.{Event, apply, cleanup, on_actor, on_provider}

-- The definitions of the host and the links behind them are the same.
pub record SameLinks (ctx ctx' : Ctx) : Type 0 where
  pub stored : ctx'.host.links ≡ ctx.host.links
  pub held : ctx'.links ≡ ctx.links

module _ (P : Platform) (T : Clock) (width : ℕ) (ctx : Ctx) where
  report_actor-SameLinks :
      (actor : Actor) (status : ActorStatus) (after : Ctx)
      → SameLinks ctx after
      → SameLinks ctx (report_actor actor status after)
  unfolding report_actor
  report_actor-SameLinks actor status after v = ground arith

  report_provider-SameLinks :
      (provider : Provider) (status : ProviderStatus) (after : Ctx)
      → SameLinks ctx after
      → SameLinks ctx (report_provider provider status after)
  unfolding report_provider
  report_provider-SameLinks provider status after v = ground arith

  reconcile_actor-SameLinks :
      (actor : Actor) → SameLinks ctx (reconcile_actor P T width actor ctx).1
  unfolding reconcile_actor
  reconcile_actor-SameLinks actor =
      let same =
        links-reconcile_actor P actor.name actor.spec.image (as_usize width actor.spec.replicas)
          ctx.host in
      elim (Result-cases
        (HostActors.reconcile_actor P actor.name actor.spec.image
          (as_usize width actor.spec.replicas) ctx.host).0) [
            | inl (e, p) ↦ rw (p, reconcile_actor) (record { stored = same; held = refl })
            | inr (claims, p) ↦
                rw (p, reconcile_actor)
                  (report_actor-SameLinks actor _ (record ctx { host = _ })
                    (record { stored = same; held = refl }))
          ]

  reconcile_provider-SameLinks :
      (provider : Provider) → SameLinks ctx (reconcile_provider P T width provider ctx).1
  unfolding reconcile_provider
  reconcile_provider-SameLinks provider =
      let same =
        (start_provider-SameTables P provider.spec.link provider.spec.image ctx.host).links in
      elim (Result-cases (start_provider P provider.spec.link provider.spec.image ctx.host).0) [
        | inl (e, p) ↦ rw (p, reconcile_provider) (record { stored = same; held = refl })
        | inr (claims, p) ↦
            rw (p, reconcile_provider)
              (report_provider-SameLinks provider _ (record ctx { host = _ })
                (record { stored = same; held = refl }))
      ]

  delete_actor-SameLinks : (actor : Actor) → SameLinks ctx (delete_actor actor ctx).1
  unfolding delete_actor
  delete_actor-SameLinks actor =
      let same = links-remove_actor actor.name ctx.host in
      elim (Result-cases (HostActors.remove_actor actor.name ctx.host).0) [
        | inl (e, p) ↦ rw (p, delete_actor) (record { stored = same; held = refl })
        | inr (u, p) ↦ rw (p, delete_actor) (record { stored = same; held = refl })
      ]

  stop_status-SameLinks :
      (provider : Provider) (s : ProviderStatus) → SameLinks ctx (stop_status P provider s ctx).1
  stop_status-SameLinks provider s =
      let same = (stop_provider-SameTables P provider.spec.link s.public_key ctx.host).links in
      elim (Result-cases (stop_provider P provider.spec.link s.public_key ctx.host).0) [
        | inl (e, p) ↦ rw (p, stop_status) (record { stored = same; held = refl })
        | inr (u, p) ↦ rw (p, stop_status) (record { stored = same; held = refl })
      ]

  delete_provider-SameLinks :
      (provider : Provider) → SameLinks ctx (delete_provider P provider ctx).1
  unfolding delete_provider
  delete_provider-SameLinks provider = elim (Option-cases provider.status) [
    | inl e ↦ rw (e, delete_provider) (record { stored = refl; held = refl })
    | inr (s, e) ↦ elim (Bool-cases (is_empty s.public_key)) [
      | inl f ↦ rw (e, delete_provider, f) (record { stored = refl; held = refl })
      | inr f ↦ rw (e, delete_provider, f) (stop_status-SameLinks provider s)
    ]
  ]

  module _ (L : Lattice) (node : String) where
    pub on_actor-SameLinks : (e : Event Actor) → SameLinks ctx (on_actor L P T width node e ctx).1
    unfolding on_actor update_host_status
    on_actor-SameLinks (apply actor) = elim (Bool-cases (actor.spec.host == ctx.host.name)) [
      | inl ours ↦
          let v = reconcile_actor-SameLinks actor in
          rw (ours, on_actor) (record { stored = v.stored; held = v.held })
      | inr other ↦ rw (other, on_actor) (record { stored = refl; held = refl })
    ]
    on_actor-SameLinks (cleanup actor) = elim (Bool-cases (actor.spec.host == ctx.host.name)) [
      | inl ours ↦
          let v = delete_actor-SameLinks actor in
          rw (ours, on_actor) (record { stored = v.stored; held = v.held })
      | inr other ↦ rw (other, on_actor) (record { stored = refl; held = refl })
    ]

    pub on_provider-SameLinks :
        (e : Event Provider) → SameLinks ctx (on_provider L P T width node e ctx).1
    unfolding on_provider
    on_provider-SameLinks (apply provider) =
        elim (Bool-cases (provider.spec.host == ctx.host.name)) [
          | inl ours ↦ rw (ours, on_provider) (reconcile_provider-SameLinks provider)
          | inr other ↦ rw (other, on_provider) (record { stored = refl; held = refl })
        ]
    on_provider-SameLinks (cleanup provider) =
        elim (Bool-cases (provider.spec.host == ctx.host.name)) [
          | inl ours ↦ rw (ours, on_provider) (delete_provider-SameLinks provider)
          | inr other ↦ rw (other, on_provider) (record { stored = refl; held = refl })
        ]
