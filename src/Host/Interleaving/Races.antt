-- ===== src/Host/Interleaving/Races.antt =====
-- What interleavings would do that the locks do not keep apart: link tasks that did not take turns,
-- and a removal between the group and the instances of a reconciliation.
use kasmcloud.Prelude.{
  ℕ, suc, String, ◌≡◌, refl, inl, inr, none, some, [], ◌∷◌, ok, arith, eq_refl, Result-cases,
}
use kasmcloud.Map.{lookup, insert, remove}
use kasmcloud.Map.Laws.{lookup-remove_self}
use kasmcloud.External.{LinkDefinition, Claims, ActorMetadata}
use kasmcloud.External.Platform.{Platform}
use kasmcloud.Host.{Host, Actor, ActorGroup}
use kasmcloud.Host.Links.{entity_of, link_entity, unlink_entity, update_links, hash_of}
use kasmcloud.Host.Links.Table.{find_link, find_link-link_entity}
use kasmcloud.Host.Links.Step.{lookup-update_links}
use kasmcloud.Host.Actors.{
  set_actor, leave_group, put_group, without_actor, remove_actor, scale_actor, start_missing,
  start_actor,
}
use kasmcloud.Host.Actors.Cases.{prepared}
use kasmcloud.Host.Actors.Scaling.{replicas, actors-start_actor}
use kasmcloud.Host.Actors.Accounting.{Serves, start_actor-Serves}
use kasmcloud.Host.Interleaving.{put_links, take_links, put_group_link, take_group_link}

module _ (P : Platform) (ld : LinkDefinition) (h : Host) (g : ActorGroup) where
  -- both sections of a deletion between the two of an addition
  abbrev pub overtaken : Host
  overtaken = put_group_link ld (take_group_link ld (take_links P ld (put_links P ld h)))

  pub overtaken-stale :
      lookup ld.actor_id h.actors ≡ some g
      → (lookup (hash_of P ld) overtaken.links ≡ none)
        × ((g' : ActorGroup) × (lookup ld.actor_id overtaken.actors ≡ some g')
            × (find_link ld.contract_id ld.link_name g'.links ≡ some (entity_of ld)))
  overtaken-stale there =
      let unlinked : ActorGroup = record g { links = unlink_entity ld g.links } in
      let first : lookup ld.actor_id (update_links (unlink_entity ld) ld.actor_id h.actors)
          ≡ some unlinked =
        rw
          (
            lookup-update_links (unlink_entity ld) ld.actor_id ld.actor_id h.actors,
            eq_refl ld.actor_id,
            there,
          )
          refl in
      let linked : ActorGroup = record unlinked { links = link_entity ld unlinked.links } in
      (
        lookup-remove_self (hash_of P ld) (insert (hash_of P ld) ld h.links),
        (
          linked,
          rw
              (
                lookup-update_links (link_entity ld) ld.actor_id ld.actor_id
                    (update_links (unlink_entity ld) ld.actor_id h.actors),
                eq_refl ld.actor_id,
                first,
              )
              refl,
          rw
              (
                find_link-link_entity ld.contract_id ld.link_name ld unlinked.links,
                eq_refl ld.contract_id,
                eq_refl ld.link_name,
              )
              refl,
        ),
      )

-- the last actor of a group takes the group with it
module _ (subject other : String) (a : Actor) (g : ActorGroup) (h : Host) where
  remove_actor-group :
      lookup other h.actor_keys ≡ some subject
      → lookup subject h.actors ≡ some g
      → g.actors ≡ (other, a) ∷ []
      → lookup subject (remove_actor other h).1.actors ≡ none
  unfolding remove_actor leave_group without_actor put_group lookup remove
  remove_actor-group known there alone =
      rw
        (
          known,
          remove_actor,
          there,
          leave_group,
          alone,
          without_actor,
          eq_refl other,
          put_group,
          alone,
          remove,
          eq_refl other,
        )
        (lookup-remove_self subject h.actors)

module _ (P : Platform) (claims : Claims ActorMetadata) (name actor_ref : String) (n : ℕ)
    (h : Host) where
  -- With its group gone from the map, what a reconciliation goes on to start is nowhere in the map.
  start_missing_orphaned :
      lookup claims.subject h.actors ≡ none
      → (start_missing P claims name actor_ref (suc n) h).0 ≡ ok tt
      → (replicas claims.subject name (start_missing P claims name actor_ref (suc n) h).1 ≡ 0)
        × Serves (suc n) h.trace (start_missing P claims name actor_ref (suc n) h).1.trace
  unfolding start_missing set_actor
  start_missing_orphaned gone done =
      elim (Result-cases (start_actor P (some claims) actor_ref (suc n) h).0) [
        | inl (e, p) ↦ absurd (ground arith)
        | inr (a, p) ↦
            let same = actors-start_actor P (some claims) actor_ref (suc n) h in
            rw (p, same, gone, set_actor, same, gone)
              (refl, start_actor-Serves P claims actor_ref (suc n) h a p)
      ]

  scale_actor_orphaned :
      lookup claims.subject h.actors ≡ none
      → (scale_actor P claims name actor_ref (suc n) h).0 ≡ ok tt
      → (replicas claims.subject name (scale_actor P claims name actor_ref (suc n) h).1 ≡ 0)
        × Serves (suc n) h.trace (scale_actor P claims name actor_ref (suc n) h).1.trace
  unfolding scale_actor
  scale_actor_orphaned gone done =
      rw (gone, scale_actor) (start_missing_orphaned gone (rw (gone, scale_actor) at done))

-- When the only actor of a group is removed after a reconciliation of another has found the group
-- and before it looks into it, and the reconciliation goes on to succeed, then the instances asked
-- for were set to serve, and the host holds none of them.
pub removed_meanwhile :
    (P : Platform) (claims : Claims ActorMetadata) (name actor_ref : String) (n : ℕ) (h : Host)
    (other : String) (a : Actor) (g : ActorGroup)
    → let prepared_host = prepared name claims.subject h in
      let left = (remove_actor other prepared_host).1 in
      let scaled = scale_actor P claims name actor_ref (suc n) left in
      lookup other prepared_host.actor_keys ≡ some claims.subject
      → lookup claims.subject prepared_host.actors ≡ some g
      → g.actors ≡ (other, a) ∷ []
      → scaled.0 ≡ ok tt
      → (replicas claims.subject name scaled.1 ≡ 0) × Serves (suc n) left.trace scaled.1.trace
removed_meanwhile P claims name actor_ref n h other a g known there alone done =
    scale_actor_orphaned P claims name actor_ref n _
      (remove_actor-group claims.subject other a g (prepared name claims.subject h) known there
        alone)
      done
