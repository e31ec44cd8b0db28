-- ===== src/Controller/Events/Kept.antt =====
-- What every operation of the host keeps, the controllers keep, whatever events they are handed in
-- whatever order.
use kasmcloud.Prelude.{
  ℕ, String, inl, inr, List, [], ◌∷◌, arith, Result-cases, Option-cases, Bool-cases, as_usize,
  is_empty, ◌==◌,
}
use kasmcloud.Map.{lookup}
use kasmcloud.External.{LinkDefinition}
use kasmcloud.External.Lattice.{Lattice}
use kasmcloud.External.Platform.{Platform}
use kasmcloud.External.Clock.{Clock}
use kasmcloud.Apis.{Actor, Provider, Link, LinkStatus, ActorStatus, ProviderStatus}
use kasmcloud.Host.{Host}
use kasmcloud.Host.Links as HostLinks
use kasmcloud.Host.Actors as HostActors
use kasmcloud.Host.Providers as HostProviders
use kasmcloud.Host.Links.{add_linkdef, delete_linkdef}
use kasmcloud.Host.Providers.{start_provider, stop_provider}
use kasmcloud.Controller.{Ctx, Cluster}
use kasmcloud.Controller.Links.{
  id_of, is_settled, resolve_link, link_id, set_remove, hold_link, patch_link, add_link,
  release_link, delete_settled, delete_link,
}
use kasmcloud.Controller.Workloads.{
  report_actor, report_provider, reconcile_actor, reconcile_provider, delete_actor, delete_provider,
  stop_status, update_host_status,
}
use kasmcloud.Controller.Events.{Event, apply, cleanup, on_link, on_actor, on_provider}

module _ (L : Lattice) (P : Platform) (T : Clock) (width : ℕ) (node : String) where
  -- One event, handled.
  pub data Step : Ctx → Ctx → Type 0 where
    link_event :
        (C : Cluster) (e : Event Link) (ctx : Ctx) → Step ctx (on_link L P T width node C e ctx).1
    actor_event : (e : Event Actor) (ctx : Ctx) → Step ctx (on_actor L P T width node e ctx).1
    provider_event :
        (e : Event Provider) (ctx : Ctx) → Step ctx (on_provider L P T width node e ctx).1

  -- Any number of events, one after another.
  pub data Reaches (start : Ctx) : Ctx → Type 0 where
    here : Reaches start start
    after : {ctx ctx' : Ctx} → Reaches start ctx → Step ctx ctx' → Reaches start ctx'

-- What each operation of the host keeps, whether it succeeds or fails.
pub record IsKept (L : Lattice) (P : Platform) (Q : Host → Type 0) : Type 0 where
  pub add_linkdef : (ld : LinkDefinition) (h : Host) → Q h → Q (HostLinks.add_linkdef L P ld h).1
  pub delete_linkdef :
      (ld : LinkDefinition) (h : Host) → Q h → Q (HostLinks.delete_linkdef L P ld h).1
  pub reconcile_actor :
      (name actor_ref : String) (n : ℕ) (h : Host)
      → Q h
      → Q (HostActors.reconcile_actor P name actor_ref n h).1
  pub remove_actor : (name : String) (h : Host) → Q h → Q (HostActors.remove_actor name h).1
  pub start_provider :
      (link_name ref : String) (h : Host)
      → Q h
      → Q (HostProviders.start_provider P link_name ref h).1
  pub stop_provider :
      (link_name key : String) (h : Host)
      → Q h
      → Q (HostProviders.stop_provider P link_name key h).1

module _ (L : Lattice) (P : Platform) (Q : Host → Type 0) (K : IsKept L P Q) where
  hold_link-kept :
      (name : String) (ld : LinkDefinition) (ctx : Ctx)
      → Q ctx.host
      → Q (hold_link L P name ld ctx).1.host
  unfolding hold_link
  hold_link-kept name ld ctx v = elim (Option-cases (lookup (id_of ld) ctx.links)) [
    | inl e ↦ elim (Result-cases (add_linkdef L P ld ctx.host).0) [
      | inl (x, p) ↦ rw (e, hold_link, p) (K.add_linkdef ld ctx.host v)
      | inr (u, p) ↦ rw (e, hold_link, p) (K.add_linkdef ld ctx.host v)
    ]
    | inr (held, e) ↦ rw (e, hold_link) v
  ]

  patch_link-kept :
      (link : Link) (ld : LinkDefinition) (ctx : Ctx) → Q ctx.host → Q (patch_link link ld ctx).host
  unfolding patch_link
  patch_link-kept link ld ctx v = ground arith

  pub add_link-kept :
      (C : Cluster) (link : Link) (ctx : Ctx) → Q ctx.host → Q (add_link L P C link ctx).1.host
  unfolding add_link
  add_link-kept C link ctx v = elim (Result-cases (resolve_link C link ctx.patches)) [
    | inl (n, p) ↦ rw (p, add_link) v
    | inr (ld, p) ↦
        let held = hold_link-kept link.name ld ctx v in
        elim (Result-cases (hold_link L P link.name ld ctx).0) [
          | inl (n, q) ↦ rw (p, add_link, q) held
          | inr (u, q) ↦ rw (p, add_link, q) (patch_link-kept link ld _ held)
        ]
  ]

  release_link-kept :
      (id : String) (held : LinkDefinition) (names : List String) (ctx : Ctx)
      → Q ctx.host
      → Q (release_link L P id held names ctx).1.host
  unfolding release_link
  release_link-kept id held [] ctx v = elim (Result-cases (delete_linkdef L P held ctx.host).0) [
    | inl (x, p) ↦ rw (p, release_link) (K.delete_linkdef held ctx.host v)
    | inr (u, p) ↦ rw (p, release_link) (K.delete_linkdef held ctx.host v)
  ]
  release_link-kept id held (n ∷ names) ctx v = v

  delete_settled-kept :
      (name contract_id : String) (s : LinkStatus) (ctx : Ctx)
      → Q ctx.host
      → Q (delete_settled L P name contract_id s ctx).1.host
  delete_settled-kept name contract_id s ctx v =
      elim (Option-cases (lookup (link_id contract_id s.actor_key s.link_name) ctx.links)) [
        | inl q ↦ rw (q, delete_settled) v
        | inr (entry, q) ↦
            rw (q, delete_settled) (release_link-kept _ entry.0 (set_remove name entry.1) ctx v)
      ]

  delete_link-kept : (link : Link) (ctx : Ctx) → Q ctx.host → Q (delete_link L P link ctx).1.host
  unfolding delete_link
  delete_link-kept link ctx v = elim (Option-cases link.status) [
    | inl e ↦ rw (e, delete_link) v
    | inr (s, e) ↦ elim (Bool-cases (is_settled s)) [
      | inr f ↦ rw (e, delete_link, f) v
      | inl f ↦ rw (e, delete_link, f) (delete_settled-kept link.name link.spec.contract_id s ctx v)
    ]
  ]

  module _ (T : Clock) (width : ℕ) (ctx : Ctx) (v : Q ctx.host) where
    report_actor-kept :
        (actor : Actor) (status : ActorStatus) → Q (report_actor actor status ctx).host
    unfolding report_actor
    report_actor-kept actor status = ground arith

    report_provider-kept :
        (provider : Provider) (status : ProviderStatus)
        → Q (report_provider provider status ctx).host
    unfolding report_provider
    report_provider-kept provider status = ground arith

  module _ (T : Clock) (width : ℕ) (ctx : Ctx) (v : Q ctx.host) where
    reconciled-kept : (actor : Actor) → Q (reconcile_actor P T width actor ctx).1.host
    unfolding reconcile_actor
    reconciled-kept actor =
        let sound =
          K.reconcile_actor actor.name actor.spec.image (as_usize width actor.spec.replicas)
            ctx.host v in
        elim (Result-cases
          (HostActors.reconcile_actor P actor.name actor.spec.image
            (as_usize width actor.spec.replicas) ctx.host).0) [
              | inl (e, p) ↦ rw (p, reconcile_actor) sound
              | inr (claims, p) ↦
                  rw (p, reconcile_actor)
                    (report_actor-kept T width (record ctx { host = _ }) sound actor _)
            ]

    started-kept : (provider : Provider) → Q (reconcile_provider P T width provider ctx).1.host
    unfolding reconcile_provider
    started-kept provider =
        let sound = K.start_provider provider.spec.link provider.spec.image ctx.host v in
        elim (Result-cases (start_provider P provider.spec.link provider.spec.image ctx.host).0) [
          | inl (e, p) ↦ rw (p, reconcile_provider) sound
          | inr (claims, p) ↦
              rw (p, reconcile_provider)
                (report_provider-kept T width (record ctx { host = _ }) sound provider _)
        ]

    deleted-kept : (actor : Actor) → Q (delete_actor actor ctx).1.host
    unfolding delete_actor
    deleted-kept actor =
        let sound = K.remove_actor actor.name ctx.host v in
        elim (Result-cases (HostActors.remove_actor actor.name ctx.host).0) [
          | inl (e, p) ↦ rw (p, delete_actor) sound
          | inr (u, p) ↦ rw (p, delete_actor) sound
        ]

    stop_status-kept :
        (provider : Provider) (s : ProviderStatus) → Q (stop_status P provider s ctx).1.host
    stop_status-kept provider s =
        let sound = K.stop_provider provider.spec.link s.public_key ctx.host v in
        elim (Result-cases (stop_provider P provider.spec.link s.public_key ctx.host).0) [
          | inl (e, p) ↦ rw (p, stop_status) sound
          | inr (u, p) ↦ rw (p, stop_status) sound
        ]

    stopped-kept : (provider : Provider) → Q (delete_provider P provider ctx).1.host
    unfolding delete_provider
    stopped-kept provider = elim (Option-cases provider.status) [
      | inl e ↦ rw (e, delete_provider) v
      | inr (s, e) ↦ elim (Bool-cases (is_empty s.public_key)) [
        | inl f ↦ rw (e, delete_provider, f) v
        | inr f ↦ rw (e, delete_provider, f) (stop_status-kept provider s)
      ]
    ]

  module _ (T : Clock) (width : ℕ) (node : String) where
    on_link-kept :
        (C : Cluster) (e : Event Link) (ctx : Ctx)
        → Q ctx.host
        → Q (on_link L P T width node C e ctx).1.host
    unfolding on_link
    on_link-kept C (apply link) ctx v = add_link-kept C link ctx v
    on_link-kept C (cleanup link) ctx v = delete_link-kept link ctx v

    on_actor-kept :
        (e : Event Actor) (ctx : Ctx) → Q ctx.host → Q (on_actor L P T width node e ctx).1.host
    unfolding on_actor update_host_status
    on_actor-kept (apply actor) ctx v = elim (Bool-cases (actor.spec.host == ctx.host.name)) [
      | inl ours ↦ rw (ours, on_actor) (reconciled-kept T width ctx v actor)
      | inr other ↦ rw (other, on_actor) v
    ]
    on_actor-kept (cleanup actor) ctx v = elim (Bool-cases (actor.spec.host == ctx.host.name)) [
      | inl ours ↦ rw (ours, on_actor) (deleted-kept T width ctx v actor)
      | inr other ↦ rw (other, on_actor) v
    ]

    on_provider-kept :
        (e : Event Provider) (ctx : Ctx)
        → Q ctx.host
        → Q (on_provider L P T width node e ctx).1.host
    unfolding on_provider
    on_provider-kept (apply provider) ctx v =
        elim (Bool-cases (provider.spec.host == ctx.host.name)) [
          | inl ours ↦ rw (ours, on_provider) (started-kept T width ctx v provider)
          | inr other ↦ rw (other, on_provider) v
        ]
    on_provider-kept (cleanup provider) ctx v =
        elim (Bool-cases (provider.spec.host == ctx.host.name)) [
          | inl ours ↦ rw (ours, on_provider) (stopped-kept T width ctx v provider)
          | inr other ↦ rw (other, on_provider) v
        ]

    Step-kept : {ctx ctx' : Ctx} → Step L P T width node ctx ctx' → Q ctx.host → Q ctx'.host
    Step-kept (link_event C e ctx) v = on_link-kept C e ctx v
    Step-kept (actor_event e ctx) v = on_actor-kept e ctx v
    Step-kept (provider_event e ctx) v = on_provider-kept e ctx v

    pub Reaches-kept :
        {start ctx : Ctx} → Reaches L P T width node start ctx → Q start.host → Q ctx.host
    Reaches-kept here v = v
    Reaches-kept (after r s) v = Step-kept s (Reaches-kept r v)
