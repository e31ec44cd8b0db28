-- ===== src/Controller/Events/Accorded.antt =====
-- From the start of the program on, the controllers keep the links that they count in accord with
-- the definitions of the host.
use kasmcloud.Prelude.{ℕ, String, ◌≡◌, ◌↔◌, ok}
use kasmcloud.External.{LinkDefinition}
use kasmcloud.External.Lattice.{Lattice}
use kasmcloud.External.Platform.{Platform}
use kasmcloud.External.Clock.{Clock}
use kasmcloud.Apis.{Actor, Provider, Link}
use kasmcloud.Host.Links.{hash_of}
use kasmcloud.Controller.{Ctx, Cluster}
use kasmcloud.Controller.Links.{id_of, resolve_link}
use kasmcloud.Controller.Links.Accord.{Announces, InAccord}
use kasmcloud.Controller.Links.Accorded.{add_link-InAccord, delete_link-InAccord}
use kasmcloud.Controller.Events.{Event, apply, cleanup, on_link, on_actor, on_provider}
use kasmcloud.Controller.Events.Untouched.{SameLinks, on_actor-SameLinks, on_provider-SameLinks}

module _ (L : Lattice) (P : Platform) (T : Clock) (width : ℕ) (node : String)
    (Q : LinkDefinition → Type 0) where
  -- One event, handled; an applied link, if it resolves, resolves to a definition of those that
  -- are told apart.
  pub data Turn : Ctx → Ctx → Type 0 where
    link_applied :
        (C : Cluster) (link : Link) (ctx : Ctx)
        → ((ld : LinkDefinition) → resolve_link C link ctx.patches ≡ ok ld → Q ld)
        → Turn ctx (on_link L P T width node C (apply link) ctx).1
    link_cleaned_up :
        (C : Cluster) (link : Link) (ctx : Ctx)
        → Turn ctx (on_link L P T width node C (cleanup link) ctx).1
    actor_event : (e : Event Actor) (ctx : Ctx) → Turn ctx (on_actor L P T width node e ctx).1
    provider_event :
        (e : Event Provider) (ctx : Ctx) → Turn ctx (on_provider L P T width node e ctx).1

  -- Any number of events, one after another.
  pub data Turns (start : Ctx) : Ctx → Type 0 where
    here : Turns start start
    after : {ctx ctx' : Ctx} → Turns start ctx → Turn ctx ctx' → Turns start ctx'

module _ (L : Lattice) (P : Platform) (T : Clock) (width : ℕ) (node : String)
    (announces : Announces L P) (Q : LinkDefinition → Type 0)
    (same : (ld d : LinkDefinition)
      → Q ld
      → Q d
      → (hash_of P ld ≡ hash_of P d) ↔ (id_of ld ≡ id_of d)) where
  SameLinks-InAccord :
      (ctx ctx' : Ctx)
      → SameLinks ctx ctx'
      → InAccord P Q ctx.host.links ctx.links
      → InAccord P Q ctx'.host.links ctx'.links
  SameLinks-InAccord ctx ctx' s v = rw (s.stored, s.held) v

  Turn-InAccord :
      {ctx ctx' : Ctx}
      → Turn L P T width node Q ctx ctx'
      → InAccord P Q ctx.host.links ctx.links
      → InAccord P Q ctx'.host.links ctx'.links
  unfolding on_link
  Turn-InAccord (link_applied C link ctx q) v =
      add_link-InAccord L P announces Q same C link ctx q v
  Turn-InAccord (link_cleaned_up C link ctx) v =
      delete_link-InAccord L P announces Q same link ctx v
  Turn-InAccord (actor_event e ctx) v =
      SameLinks-InAccord ctx _ (on_actor-SameLinks P T width ctx L node e) v
  Turn-InAccord (provider_event e ctx) v =
      SameLinks-InAccord ctx _ (on_provider-SameLinks P T width ctx L node e) v

  pub Turns-InAccord :
      {start ctx : Ctx}
      → Turns L P T width node Q start ctx
      → InAccord P Q start.host.links start.links
      → InAccord P Q ctx.host.links ctx.links
  Turns-InAccord here v = v
  Turns-InAccord (after r s) v = Turn-InAccord s (Turns-InAccord r v)
