-- ===== src/Controller/Links/Delivery.antt =====
-- A link followed from the controller, over the host's tables, to the calls of its actor.
use kasmcloud.Prelude.{
  String, ◌≡◌, refl, ◌∙◌, inl, inr, true, none, some, List, [], ok, err, anyhow, arith,
  Result-cases,
}
use kasmcloud.Map.{Map, lookup}
use kasmcloud.External.{Bytes, WasmCloudEntity, TargetEntity, LinkDefinition, Invocation}
use kasmcloud.External.Effects.{Trace}
use kasmcloud.External.Lattice.{Lattice}
use kasmcloud.External.Platform.{Platform}
use kasmcloud.Handler.{Handler}
use kasmcloud.Handler.Capability.{MayCall}
use kasmcloud.Handler.Invoke.{package_of}
use kasmcloud.Handler.Invoke.Safety.{KeepsTarget}
use kasmcloud.Apis.{Link, LinkStatus}
use kasmcloud.Host.{Host, ActorGroup}
use kasmcloud.Host.Links.{entity_of, hash_of, add_linkdef, delete_linkdef}
use kasmcloud.Host.Links.Table.{find_link}
use kasmcloud.Host.Links.Faults.{delete_linkdef-removes}
use kasmcloud.Host.Tables.{IsSound, delete_linkdef-IsSound}
use kasmcloud.Controller.{Ctx, Cluster}
use kasmcloud.Controller.Links.{
  resolve_link, id_of, link_id, is_settled, set_remove, hold_link, release_link, patch_link,
  add_link, delete_settled, delete_link,
}
use kasmcloud.Controller.Links.Calls.{
  add_linkdef-group, add_linkdef-find_link, prepared_call, prepare_linked, prepare_unlinked,
}

module _ (L : Lattice) (P : Platform) (C : Cluster) (link : Link) (ctx : Ctx)
    (ld : LinkDefinition) where
  hold_link-host :
      lookup (id_of ld) ctx.links ≡ none
      → (hold_link L P link.name ld ctx).1.host ≡ (add_linkdef L P ld ctx.host).1
  unfolding hold_link
  hold_link-host free = elim (Result-cases (add_linkdef L P ld ctx.host).0) [
    | inl (e, p) ↦ rw (free, hold_link, p) refl
    | inr (u, p) ↦ rw (free, hold_link, p) refl
  ]

  patch_link-host : (ctx' : Ctx) → (patch_link link ld ctx').host ≡ ctx'.host
  unfolding patch_link
  patch_link-host ctx' = ground arith

  -- the host after a link that resolves to a free id
  add_link-host :
      resolve_link C link ctx.patches ≡ ok ld
      → lookup (id_of ld) ctx.links ≡ none
      → (add_link L P C link ctx).1.host ≡ (add_linkdef L P ld ctx.host).1
  unfolding add_link
  add_link-host r free = elim (Result-cases (hold_link L P link.name ld ctx).0) [
    | inl (e, p) ↦ rw (r, add_link, p) (hold_link-host free)
    | inr (u, p) ↦ rw (r, add_link, p) (patch_link-host _ ∙ hold_link-host free)
  ]

  -- In a sound host, when a link resolves to a definition whose id is free and whose hash is not
  -- taken, and the actor has a group, then after add_link it has one, and a call by an actor with
  -- the links of that group, of an operation in the package of the contract and with the link name
  -- as its target, comes to the invocation of the provider of the definition, given that the
  -- invocation can be made and carries its target, and that the claims allow the contract.
  pub add_link-delivers :
      (g : ActorGroup) (h : Handler) (aliases : Map WasmCloudEntity) (targets : Map TargetEntity)
      (operation : String) (request : Bytes) (t : Trace) (inv : Invocation)
      → IsSound P ctx.host
      → resolve_link C link ctx.patches ≡ ok ld
      → lookup (id_of ld) ctx.links ≡ none
      → lookup (hash_of P ld) ctx.host.links ≡ none
      → lookup ld.actor_id ctx.host.actors ≡ some g
      → (parsed : package_of operation ≡ ok ld.contract_id) → KeepsTarget L
      → L.new_invocation t h.cluster_key h.host_key h.origin
          (entity_of ld)
          operation
          request
          (L.injector t)
        ≡ ok inv
      → MayCall h.claims.metadata ld.contract_id
      → (g' : ActorGroup) × (lookup ld.actor_id (add_link L P C link ctx).1.host.actors ≡ some g')
        × (prepared_call L P h g'.links aliases targets ld operation request t parsed ≡ (ok inv, t))
        × (inv.target ≡ entity_of ld)
  add_link-delivers g h aliases targets operation request t inv v r free fresh there parsed keeps
        made may =
      let (g', there') = add_linkdef-group L P ld ctx.host fresh g there in
      let found = add_linkdef-find_link L P ld ctx.host fresh g' v there' in
      let (call, target) =
        prepare_linked L P h g'.links aliases targets ld operation request t parsed inv found keeps
          made may in
      (g', rw (add_link-host r free) there', call, target)

module _ (L : Lattice) (P : Platform) (held : LinkDefinition) (host : Host) where
  delete_linkdef-find_link :
      (g : ActorGroup)
      → IsSound P host
      → lookup held.actor_id (delete_linkdef L P held host).1.actors ≡ some g
      → find_link held.contract_id held.link_name g.links ≡ none
  delete_linkdef-find_link g v there =
      (delete_linkdef-IsSound L P held host v).consistent.in_step held.actor_id held.contract_id
        held.link_name g there
      ∙ rw (delete_linkdef-removes L P held host) refl

module _ (L : Lattice) (P : Platform) (link : Link) (ctx : Ctx) (s : LinkStatus)
    (held : LinkDefinition) (names : List String) where
  -- the host after the last link behind a definition is gone
  delete_link-host :
      link.status ≡ some s
      → is_settled s ≡ true
      → lookup (link_id link.spec.contract_id s.actor_key s.link_name) ctx.links
        ≡ some (held, names)
      → set_remove link.name names ≡ []
      → (delete_link L P link ctx).1.host ≡ (delete_linkdef L P held ctx.host).1
  unfolding delete_link release_link
  delete_link-host status settled there last =
      elim (Result-cases (delete_linkdef L P held ctx.host).0) [
        | inl (e, p) ↦
            rw (status, delete_link, settled, delete_settled, there, last, release_link, p) refl
        | inr (u, p) ↦
            rw (status, delete_link, settled, delete_settled, there, last, release_link, p) refl
      ]

  -- In a sound host, when delete_link is given the last settled link behind a held definition, a
  -- call with the links that the group of the actor has afterwards, of an operation in the package
  -- of the contract and with the link name as its target, fails with `link not found` and does
  -- nothing to the outside, whether the host succeeded in announcing the deletion or not.
  pub delete_link-cuts_off :
      (g : ActorGroup) (h : Handler) (aliases : Map WasmCloudEntity) (targets : Map TargetEntity)
      (operation : String) (request : Bytes) (t : Trace)
      → IsSound P ctx.host
      → link.status ≡ some s
      → is_settled s ≡ true
      → lookup (link_id link.spec.contract_id s.actor_key s.link_name) ctx.links
        ≡ some (held, names)
      → set_remove link.name names ≡ []
      → lookup held.actor_id (delete_link L P link ctx).1.host.actors ≡ some g
      → (parsed : package_of operation ≡ ok held.contract_id)
      → prepared_call L P h g.links aliases targets held operation request t parsed
        ≡ (err (anyhow "link not found"), t)
  delete_link-cuts_off g h aliases targets operation request t v status settled there last group
        parsed =
      let dropped = delete_link-host status settled there last in
      prepare_unlinked L P h g.links aliases targets held operation request t parsed
        (delete_linkdef-find_link L P held ctx.host g v (rw dropped at group))
