-- ===== src/Tests/Delivery.antt =====
-- Witnesses for the theorems on links from the controller to the calls of an actor, and on what link
-- tables stand for.
use kasmcloud.Prelude.{◌≡◌, refl, ap, none, some, List, [], ◌∷◌, ok, err, anyhow}
use kasmcloud.Map.{lookup, insert, remove}
use kasmcloud.External.{Invocation, LinkDefinition}
use kasmcloud.Handler.Capability.{MayCall, claimed, here}
use kasmcloud.Handler.Invoke.{package_of, split_once}
use kasmcloud.Host.{ActorGroup}
use kasmcloud.Host.Links.{
  entity_of, linkdef_hash, hash_of, get_actor_links, add_linkdef, delete_linkdef, store_link,
  drop_link, announce, update_links, link_entity, unlink_entity,
}
use kasmcloud.Host.Links.Table.{find_link}
use kasmcloud.Host.Links.Refinement.{Command, put, del, SameSlot, run, run_slots, view}
use kasmcloud.Host.Links.Refinement.Runs.{Ready, of_group, run-refines}
use kasmcloud.Host.Actors.{
  reconcile_actor, fetch_actor, check_key, register_key, ensure_group, scale_actor, start_missing,
  start_actor, instantiate_actor, instantiate_many, instantiate_one, set_actor, resize, scale_up,
  scale_down, abort_all,
}
use kasmcloud.Host.Tables.{IsSound}
use kasmcloud.Controller.{Ctx}
use kasmcloud.Controller.Events.Kept.{add_link-kept}
use kasmcloud.Controller.Events.Sound.{IsSound-kept}
use kasmcloud.Controller.Links.{
  resolve_link, from_spec, from_status, find_actor_id, find_provider_id, add_link, delete_link,
  hold_link, link_id, set_remove, patch_link, release_link,
}
use kasmcloud.Controller.Links.Calls.{prepared_call}
use kasmcloud.Controller.Links.Delivery.{add_link-delivers, delete_link-cuts_off}
use kasmcloud.Tests.Fixture.{handler, lattice, platform, http_link, invocation_with}
use kasmcloud.Tests.Handlers.{lattice-KeepsTarget}
use kasmcloud.Tests.Actors.{
  running, running-IsConsistent, running-KeysMatch, running_group, running-group, running-links,
}
use kasmcloud.Tests.Resources.{cluster, first_link, status}

running-IsSound : IsSound platform running
running-IsSound = record { consistent = running-IsConsistent; matching = running-KeysMatch }

abbrev before : Ctx
before = record { host = running; links = []; patches = [] }

abbrev serve : Invocation
serve = record (invocation_with (1 ∷ [])) {
  target = entity_of http_link;
  operation = "wasmcloud:httpserver/Serve";
}

may_serve : MayCall handler.claims.metadata "wasmcloud:httpserver"
may_serve = claimed _ _ refl refl (here refl)

serve_parsed : package_of "wasmcloud:httpserver/Serve" ≡ ok "wasmcloud:httpserver"
unfolding package_of split_once
serve_parsed = refl

add_link-delivers_example :
    (g : ActorGroup) × (lookup "MECHO"
        (add_link lattice platform cluster first_link before).1.host.actors
      ≡ some g)
    × (prepared_call lattice platform handler g.links [] [] http_link "wasmcloud:httpserver/Serve"
          (1 ∷ [])
          []
          serve_parsed
        ≡ (ok serve, []))
    × (serve.target ≡ entity_of http_link)
unfolding resolve_link from_spec from_status find_actor_id find_provider_id lookup
add_link-delivers_example =
    add_link-delivers lattice platform cluster first_link before http_link running_group handler []
      [] "wasmcloud:httpserver/Serve" (1 ∷ []) [] serve running-IsSound refl refl
      (ap (lookup (hash_of platform http_link)) running-links) running-group serve_parsed
      lattice-KeepsTarget refl may_serve

abbrev linked : Ctx
linked = (add_link lattice platform cluster first_link before).1

linked-IsSound : IsSound platform linked.host
linked-IsSound =
    add_link-kept lattice platform (IsSound platform) (IsSound-kept lattice platform) cluster
      first_link before running-IsSound

delete_link-cuts_off_example :
    prepared_call lattice platform handler
      (("wasmcloud:httpserver", []) ∷ [])
      []
      []
      http_link
      "wasmcloud:httpserver/Serve"
      (1 ∷ [])
      []
      serve_parsed
    ≡ (err (anyhow "link not found"), [])
unfolding reconcile_actor lookup fetch_actor check_key register_key ensure_group scale_actor
    start_missing start_actor instantiate_actor instantiate_many instantiate_one set_actor resize
    scale_up scale_down abort_all get_actor_links insert resolve_link from_spec from_status
    find_actor_id find_provider_id hold_link patch_link link_id add_link delete_link release_link
    add_linkdef delete_linkdef linkdef_hash store_link drop_link announce update_links link_entity
    unlink_entity set_remove remove
delete_link-cuts_off_example =
    delete_link-cuts_off lattice platform first_link linked status http_link ("first" ∷ [])
      (record running_group { links = ("wasmcloud:httpserver", []) ∷ [] }) handler [] []
      "wasmcloud:httpserver/Serve" (1 ∷ []) [] linked-IsSound refl refl refl refl refl serve_parsed

-- the definitions of one slot
Here : LinkDefinition → Type 0
Here ld = ld ≡ http_link

same_slot :
    (ld d : LinkDefinition)
    → Here ld
    → Here d
    → hash_of platform d ≡ hash_of platform ld
    → SameSlot ld d
unfolding Here
same_slot ld d p q _ = rw (p, q) (record { actor = refl; contract = refl; link = refl })

running-Ready : Ready lattice platform Here same_slot running
unfolding lookup
running-Ready = record {
  consistent = running-IsConsistent;
  stored = λ id d e. absurd (let e' : none ≡ some d = rw running-links at e in cc);
}

abbrev commands : List Command
commands = put http_link ∷ del http_link ∷ put http_link ∷ []

run-refines_example :
    (view platform (run lattice platform commands running)
      ≡ run_slots commands (view platform running))
    × (of_group
          (λ g. find_link "wasmcloud:httpserver" "default" g.links)
          (lookup "MECHO" (run lattice platform commands running).actors)
        ≡ of_group
            (λ g.
              run_slots commands (view platform running) "MECHO" "wasmcloud:httpserver" "default")
            (lookup "MECHO" (run lattice platform commands running).actors))
unfolding Here
run-refines_example =
    run-refines lattice platform Here same_slot commands running "MECHO" "wasmcloud:httpserver"
      "default" (refl, (refl, (refl, tt))) running-Ready
