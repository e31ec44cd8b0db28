-- ===== src/Controller/Links/Calls.antt =====
-- What the links of a group mean for the calls of its actor, and what an addition makes of them.
use kasmcloud.Prelude.{
  String, ◌≡◌, refl, ap, ◌∙◌, inl, inr, true, none, some, Result, ok, err, Error, anyhow, arith,
  eq_refl, Option-cases, context_none,
}
use kasmcloud.Map.{Map, lookup}
use kasmcloud.Map.Laws.{lookup-insert_self}
use kasmcloud.External.{Bytes, WasmCloudEntity, LinkDefinition, TargetEntity, Invocation}
use kasmcloud.External.Effects.{Trace}
use kasmcloud.External.Lattice.{Lattice}
use kasmcloud.External.Platform.{Platform}
use kasmcloud.Handler.{Handler, Links}
use kasmcloud.Handler.Capability.{MayCall, ensure_actor_capability_iff}
use kasmcloud.Handler.Target.{resolve_target}
use kasmcloud.Handler.Invoke.{package_of, prepare}
use kasmcloud.Handler.Invoke.Safety.{KeepsTarget}
use kasmcloud.Host.{Host, ActorGroup}
use kasmcloud.Host.Links.{entity_of, hash_of, link_entity, announce, store_link, add_linkdef}
use kasmcloud.Host.Links.Table.{find_link}
use kasmcloud.Host.Links.View.{names}
use kasmcloud.Host.Links.Step.{lookup-update_links}
use kasmcloud.Host.Links.Faults.{announce-links}
use kasmcloud.Host.Tables.{IsSound, add_linkdef-IsSound}

resolve_target-find_link :
    (c l : String) (links : Links) (aliases : Map WasmCloudEntity)
    → resolve_target (some (TargetEntity.link (some l))) (lookup c links) aliases
      ≡ context_none "link not found" (find_link c l links)
unfolding resolve_target
resolve_target-find_link c l links aliases = elim (Option-cases (lookup c links)) [
  | inl e ↦ rw e refl
  | inr (targets, e) ↦ rw e refl
]

names_self : (ld : LinkDefinition) → names ld.actor_id ld.contract_id ld.link_name ld ≡ true
unfolding names
names_self ld = ground (arith, eq_refl ld.actor_id, eq_refl ld.contract_id, eq_refl ld.link_name)

module _ (L : Lattice) (P : Platform) (ld : LinkDefinition) (h : Host) where
  announce-actors : (event failure : String) → (announce L P ld event failure h).1.actors ≡ h.actors
  unfolding announce
  announce-actors event failure = ground arith

module _ (L : Lattice) (P : Platform) (ld : LinkDefinition) (h : Host)
    (fresh : lookup (hash_of P ld) h.links ≡ none) where
  add_linkdef_fresh : lookup (hash_of P ld) (add_linkdef L P ld h).1.links ≡ some ld
  unfolding add_linkdef store_link
  add_linkdef_fresh =
      rw (fresh, add_linkdef)
        (ap (lookup (hash_of P ld)) (announce-links L P ld _ _ _)
          ∙ lookup-insert_self (hash_of P ld) ld h.links)

  pub add_linkdef-group :
      (g : ActorGroup)
      → lookup ld.actor_id h.actors ≡ some g
      → (g' : ActorGroup) × (lookup ld.actor_id (add_linkdef L P ld h).1.actors ≡ some g')
  unfolding add_linkdef store_link
  add_linkdef-group g there = (
    record g { links = link_entity ld g.links },
    rw (fresh, add_linkdef)
        (ap (lookup ld.actor_id) (announce-actors L P ld (store_link L P ld h) _ _)
          ∙ (rw
              (
                lookup-update_links (link_entity ld) ld.actor_id ld.actor_id h.actors,
                eq_refl ld.actor_id,
                there,
              )
              refl)),
  )

  pub add_linkdef-find_link :
      (g : ActorGroup)
      → IsSound P h
      → lookup ld.actor_id (add_linkdef L P ld h).1.actors ≡ some g
      → find_link ld.contract_id ld.link_name g.links ≡ some (entity_of ld)
  add_linkdef-find_link g v there =
      (add_linkdef-IsSound L P ld h v).consistent.in_step ld.actor_id ld.contract_id ld.link_name g
        there
      ∙ rw (add_linkdef_fresh, names_self ld) refl

module _ (L : Lattice) (P : Platform) (h : Handler) (links : Links) (aliases : Map WasmCloudEntity)
    (targets : Map TargetEntity) (ld : LinkDefinition) (operation : String) (request : Bytes)
    (t : Trace) (parsed : package_of operation ≡ ok ld.contract_id) where
  -- What the actor's call of the link comes to, before anything is sent.
  abbrev pub prepared_call : Result Error Invocation × Trace
  prepared_call =
      prepare L h (record { links = links; aliases = aliases; targets = targets })
        (some (TargetEntity.link (some ld.link_name))) operation request t

  pub prepare_linked :
      (inv : Invocation)
      → find_link ld.contract_id ld.link_name links ≡ some (entity_of ld)
      → KeepsTarget L
      → L.new_invocation t h.cluster_key h.host_key h.origin
          (entity_of ld)
          operation
          request
          (L.injector t)
        ≡ ok inv
      → MayCall h.claims.metadata ld.contract_id
      → (prepared_call ≡ (ok inv, t)) × (inv.target ≡ entity_of ld)
  unfolding prepare
  prepare_linked inv found keeps made may =
      let target =
        keeps t h.cluster_key h.host_key h.origin (entity_of ld) operation request (L.injector t)
          inv made in
      (
        rw
            (
              parsed,
              prepare,
              resolve_target-find_link ld.contract_id ld.link_name links aliases,
              found,
              made,
              target,
              (ensure_actor_capability_iff h.claims.metadata ld.contract_id).1 may,
            )
            refl,
        target,
      )

  pub prepare_unlinked :
      find_link ld.contract_id ld.link_name links ≡ none
      → prepared_call ≡ (err (anyhow "link not found"), t)
  unfolding prepare
  prepare_unlinked missing =
      rw
        (
          parsed,
          prepare,
          resolve_target-find_link ld.contract_id ld.link_name links aliases,
          missing,
        )
        refl
