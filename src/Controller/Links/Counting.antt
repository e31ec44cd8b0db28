-- ===== src/Controller/Links/Counting.antt =====
-- How link resources that share a definition are counted, and where the count comes apart from
-- what the host holds.
use kasmcloud.Prelude.{
  String, ◌≡◌, refl, ap, ◌∙◌, inl, inr, true, none, some, List, [], ◌∷◌, ok, err, Error, arith,
  Result-cases,
}
use kasmcloud.Map.{lookup, insert}
use kasmcloud.Map.Laws.{lookup-insert_self, lookup-remove_self}
use kasmcloud.External.{LinkDefinition}
use kasmcloud.External.Lattice.{Lattice}
use kasmcloud.External.Platform.{Platform}
use kasmcloud.Apis.{Link, LinkStatus}
use kasmcloud.Host.{Host}
use kasmcloud.Host.Links.{hash_of, add_linkdef, delete_linkdef}
use kasmcloud.Host.Links.Faults.{delete_linkdef-removes}
use kasmcloud.Controller.{await_change, requeue, Ctx, Cluster}
use kasmcloud.Controller.Links.{
  resolve_link, link_id, id_of, is_settled, set_insert, set_remove, hold_link, release_link,
  patch_link, add_link, delete_link,
}

pub patch_link-rest :
    (link : Link) (ld : LinkDefinition) (ctx : Ctx)
    → ((patch_link link ld ctx).host ≡ ctx.host) × ((patch_link link ld ctx).links ≡ ctx.links)
unfolding patch_link
patch_link-rest link ld ctx = ground arith

module _ (L : Lattice) (P : Platform) (name : String) (ld : LinkDefinition) (ctx : Ctx) where
  pub hold_link_shared :
      (held : LinkDefinition) (names : List String)
      → lookup (id_of ld) ctx.links ≡ some (held, names)
      → hold_link L P name ld ctx
        ≡ (ok tt, record ctx { links = insert (id_of ld) (held, set_insert name names) ctx.links })
  unfolding hold_link
  hold_link_shared held names e = rw (e, hold_link)

  pub hold_link_taken :
      lookup (id_of ld) ctx.links ≡ none
      → (add_linkdef L P ld ctx.host).0 ≡ ok tt
      → hold_link L P name ld ctx ≡ (
        ok tt,
        record ctx {
          host = (add_linkdef L P ld ctx.host).1;
          links = insert (id_of ld) (ld, name ∷ []) ctx.links;
        },
      )
  unfolding hold_link
  hold_link_taken e t = rw (e, hold_link, t)

  hold_link_refused :
      (x : Error)
      → lookup (id_of ld) ctx.links ≡ none
      → (add_linkdef L P ld ctx.host).0 ≡ err x
      → hold_link L P name ld ctx
        ≡ (err await_change, record ctx { host = (add_linkdef L P ld ctx.host).1 })
  unfolding hold_link
  hold_link_refused x e t = rw (e, hold_link, t)

module _ (L : Lattice) (P : Platform) (C : Cluster) (link : Link) (ctx : Ctx) where
  pub add_link_held :
      (ld : LinkDefinition) (next : Ctx)
      → resolve_link C link ctx.patches ≡ ok ld
      → hold_link L P link.name ld ctx ≡ (ok tt, next)
      → add_link L P C link ctx ≡ (await_change, patch_link link ld next)
  unfolding add_link
  add_link_held ld next r e =
      rw (r, add_link, e) (ap (λ x. (await_change, patch_link link ld x.1)) e)

  -- A link that resolves to an id which is held already joins the links behind the held
  -- definition: the host is not asked for anything, and the definition stays the one that came
  -- first.
  pub add_link_shares :
      (ld held : LinkDefinition) (names : List String)
      → resolve_link C link ctx.patches ≡ ok ld
      → lookup (id_of ld) ctx.links ≡ some (held, names)
      → ((add_link L P C link ctx).1.host ≡ ctx.host)
        × (lookup (id_of ld) (add_link L P C link ctx).1.links
            ≡ some (held, set_insert link.name names))
  add_link_shares ld held names r e =
      let next : Ctx = record ctx {
        links = insert (id_of ld) (held, set_insert link.name names) ctx.links;
      } in
      let (h, l) = patch_link-rest link ld next in
      rw (add_link_held ld next r (hold_link_shared L P link.name ld ctx held names e))
        (h, ap (lookup (id_of ld)) l ∙ lookup-insert_self (id_of ld) _ ctx.links)

  -- A link that resolves to a free id is held, alone, if the host has taken its definition; if the
  -- host has refused it, the state of the controller is as before but for what the host made of
  -- the definition, and the link waits for a change.
  pub add_link_first :
      (ld : LinkDefinition)
      → resolve_link C link ctx.patches ≡ ok ld
      → lookup (id_of ld) ctx.links ≡ none
      → ((add_linkdef L P ld ctx.host).0 ≡ ok tt
          → lookup (id_of ld) (add_link L P C link ctx).1.links ≡ some (ld, link.name ∷ []))
        × ((x : Error)
            → (add_linkdef L P ld ctx.host).0 ≡ err x
            → add_link L P C link ctx
              ≡ (await_change, record ctx { host = (add_linkdef L P ld ctx.host).1 }))
  unfolding add_link
  add_link_first ld r e = (
    taken,
    λ x t.
        rw (r, add_link, hold_link_refused L P link.name ld ctx x e t)
          (ap (λ y. (await_change, y.1)) (hold_link_refused L P link.name ld ctx x e t)),
  )
    where
      taken :
          (add_linkdef L P ld ctx.host).0 ≡ ok tt
          → lookup (id_of ld) (add_link L P C link ctx).1.links ≡ some (ld, link.name ∷ [])
      taken t =
          let next : Ctx = record ctx {
            host = (add_linkdef L P ld ctx.host).1;
            links = insert (id_of ld) (ld, link.name ∷ []) ctx.links;
          } in
          let (h, l) = patch_link-rest link ld next in
          rw (add_link_held ld next r (hold_link_taken L P link.name ld ctx e t))
            (ap (lookup (id_of ld)) l ∙ lookup-insert_self (id_of ld) _ ctx.links)

module _ (L : Lattice) (P : Platform) (link : Link) (s : LinkStatus) (ctx : Ctx)
    (settled : link.status ≡ some s) (full : is_settled s ≡ true) (held : LinkDefinition)
    (names : List String) where
  abbrev pub id_here : String
  id_here = link_id link.spec.contract_id s.actor_key s.link_name

  pub delete_link_released :
      lookup id_here ctx.links ≡ some (held, names)
      → delete_link L P link ctx ≡ release_link L P id_here held (set_remove link.name names) ctx
  unfolding delete_link
  delete_link_released e = ground (arith, settled, full, e)

  -- Deleting a settled link that is not the last behind its definition takes its name off, and the
  -- host keeps the definition.
  pub delete_link_shared :
      (n : String) (rest : List String)
      → lookup id_here ctx.links ≡ some (held, names)
      → set_remove link.name names ≡ n ∷ rest
      → ((delete_link L P link ctx).1.host ≡ ctx.host)
        × (lookup id_here (delete_link L P link ctx).1.links ≡ some (held, n ∷ rest))
  unfolding release_link
  delete_link_shared n rest e more =
      rw (delete_link_released e, more) (refl, lookup-insert_self id_here _ ctx.links)

  -- Deleting the last settled link behind a definition makes the host drop it, whatever the
  -- outcome; the entry goes if the host has returned success, and otherwise stays, with no link
  -- behind it, while the reconciler asks to be called again after ten seconds.
  pub delete_link_last :
      lookup id_here ctx.links ≡ some (held, names)
      → set_remove link.name names ≡ []
      → (lookup (hash_of P held) (delete_link L P link ctx).1.host.links ≡ none)
        × (((delete_linkdef L P held ctx.host).0 ≡ ok tt
              → lookup id_here (delete_link L P link ctx).1.links ≡ none)
            × ((x : Error)
                → (delete_linkdef L P held ctx.host).0 ≡ err x
                → ((delete_link L P link ctx).0 ≡ requeue 10)
                  × (lookup id_here (delete_link L P link ctx).1.links ≡ some (held, []))))
  unfolding release_link
  delete_link_last e last =
      rw (delete_link_released e, last)
        (
          elim (Result-cases (delete_linkdef L P held ctx.host).0) [
            | inl (_, t) ↦ rw (t, release_link) (delete_linkdef-removes L P held ctx.host)
            | inr (_, t) ↦ rw (t, release_link) (delete_linkdef-removes L P held ctx.host)
          ],
          (
            λ t. rw (t, release_link) (lookup-remove_self id_here ctx.links),
            λ x t. rw (t, release_link) (refl, lookup-insert_self id_here _ ctx.links),
          ),
        )

-- After a deletion of the last link behind a definition that the host has failed at, the next link
-- that resolves to the same id joins the entry that stayed behind, and the host is left without
-- the definition.
pub dead_entry :
    (L : Lattice) (P : Platform) (link : Link) (s : LinkStatus) (ctx : Ctx)
    → link.status ≡ some s
    → is_settled s ≡ true
    → (held : LinkDefinition) (names : List String) (x : Error)
    → lookup (link_id link.spec.contract_id s.actor_key s.link_name) ctx.links ≡ some (held, names)
    → set_remove link.name names ≡ []
    → (delete_linkdef L P held ctx.host).0 ≡ err x
    → (C : Cluster) (next : Link) (ld : LinkDefinition)
    → resolve_link C next (delete_link L P link ctx).1.patches ≡ ok ld
    → id_of ld ≡ link_id link.spec.contract_id s.actor_key s.link_name
    → (lookup (hash_of P held) (add_link L P C next (delete_link L P link ctx).1).1.host.links
        ≡ none)
      × (lookup (id_of ld) (add_link L P C next (delete_link L P link ctx).1).1.links
          ≡ some (held, next.name ∷ []))
dead_entry L P link s ctx settled full held names x e last t C next ld r same =
    let (gone, (_, kept)) = delete_link_last L P link s ctx settled full held names e last in
    let (h, l) =
      add_link_shares L P C next (delete_link L P link ctx).1 ld held [] r
        (ap (λ i. lookup i (delete_link L P link ctx).1.links) same ∙ (kept x t).1) in
    (ap (λ (y : Host). lookup (hash_of P held) y.links) h ∙ gone, l)
