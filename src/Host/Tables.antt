-- ===== src/Host/Tables.antt =====
-- What keeps the host's link definitions in order and its actors under their registered keys:
-- changes of anything else, and the link operations.
use kasmcloud.Prelude.{
  ℕ, String, ◌≡◌, refl, sym, ◌∙◌, inl, inr, arith, Option-cases, Result-cases, context, pure, ◌>>=◌,
  eq_iff,
}
use kasmcloud.Map.{Map, lookup}
use kasmcloud.Map.Laws.{lookup-insert}
use kasmcloud.External.{Claims, ProviderMetadata, LinkDefinition}
use kasmcloud.External.Lattice.{Lattice}
use kasmcloud.External.Platform.{Platform}
use kasmcloud.Handler.{Links}
use kasmcloud.Host.{Host, ActorGroup}
use kasmcloud.Host.Links.{
  update_links, link_entity, unlink_entity, announce, store_link, drop_link, hash_of, add_linkdef,
  delete_linkdef,
}
use kasmcloud.Host.Links.Consistency.{
  IsConsistent, add_linkdef-IsConsistent, delete_linkdef-IsConsistent,
}
use kasmcloud.Host.Actors.{find_actor, reconcile_actor, remove_actor}
use kasmcloud.Host.Actors.Keys.{KeysMatch, reconcile_actor-KeysMatch}
use kasmcloud.Host.Actors.Groups.{reconcile_actor-IsConsistent, remove_actor-IsConsistent}
use kasmcloud.Host.Actors.Removal.{remove_actor-KeysMatch}
use kasmcloud.Host.Providers.{
  find_instance, ensure_provider, host_data_for, spawn_child, launch, launch_missing,
  start_provider, request_shutdown, stop_instance, stop_provider,
}

pub record SameTables (h h' : Host) : Type 0 where
  pub links : h'.links ≡ h.links
  pub actors : h'.actors ≡ h.actors
  pub keys : h'.actor_keys ≡ h.actor_keys

module _ (P : Platform) where
  launch-SameTables :
      (claims : Claims ProviderMetadata) (link_name path : String) (h : Host)
      → SameTables h (launch P claims link_name path h).1
  unfolding launch
  launch-SameTables claims link_name path h =
      elim (Result-cases (host_data_for P claims link_name (P.new_ulid h.trace) h)) [
        | inl (e, p) ↦ rw p (record { links = refl; actors = refl; keys = refl })
        | inr (d, p) ↦ elim (Result-cases (P.encode_host_data d)) [
          | inl (e, q) ↦ rw (p, q) (record { links = refl; actors = refl; keys = refl })
          | inr (bytes, q) ↦
              elim (Result-cases (spawn_child P path (P.new_ulid h.trace) bytes h.trace).0) [
                | inl (e, r) ↦ rw (p, q, r) (record { links = refl; actors = refl; keys = refl })
                | inr (u, r) ↦ rw (p, q, r) (record { links = refl; actors = refl; keys = refl })
              ]
        ]
      ]

  launch_missing-SameTables :
      (claims : Claims ProviderMetadata) (link_name path : String) (h : Host)
      → SameTables h (launch_missing P claims link_name path h).1
  unfolding launch_missing
  launch_missing-SameTables claims link_name path h =
      elim (Option-cases (find_instance claims.subject link_name h.providers)) [
        | inl e ↦ rw (e, launch_missing) (launch-SameTables claims link_name path h)
        | inr (i, e) ↦ rw (e, launch_missing) (record { links = refl; actors = refl; keys = refl })
      ]

  ensure_provider-SameTables :
      (claims : Claims ProviderMetadata) (ref : String) (h : Host)
      → SameTables h (ensure_provider claims ref h)
  unfolding ensure_provider
  ensure_provider-SameTables claims ref h = record {
    links = ground arith;
    actors = ground arith;
    keys = ground arith;
  }

  started-SameTables :
      (claims : Claims ProviderMetadata) (link_name path ref : String) (h : Host)
      → SameTables h
          ((launch_missing P claims link_name path >>= λ _. pure claims)
            (ensure_provider claims ref h)).1
  started-SameTables claims link_name path ref h =
      let a = ensure_provider-SameTables claims ref h in
      let b = launch_missing-SameTables claims link_name path (ensure_provider claims ref h) in
      let both : SameTables h
          (launch_missing P claims link_name path (ensure_provider claims ref h)).1 =
        record {
          links = b.links ∙ a.links;
          actors = b.actors ∙ a.actors;
          keys = b.keys ∙ a.keys;
        } in
      elim (Result-cases
        (launch_missing P claims link_name path (ensure_provider claims ref h)).0) [
          | inl (e, p) ↦ rw p both
          | inr (u, p) ↦ rw p both
        ]

  pub start_provider-SameTables :
      (link_name ref : String) (h : Host) → SameTables h (start_provider P link_name ref h).1
  unfolding start_provider
  start_provider-SameTables link_name ref h =
      elim (Result-cases
        (context "failed to fetch provider" (P.fetch_provider ref link_name h.trace))) [
          | inl (e, p) ↦ rw p (record { links = refl; actors = refl; keys = refl })
          | inr (f, p) ↦ rw p (started-SameTables f.1 link_name f.0 ref h)
        ]

  pub stop_provider-SameTables :
      (link_name key : String) (h : Host) → SameTables h (stop_provider P link_name key h).1
  unfolding stop_provider stop_instance request_shutdown
  stop_provider-SameTables link_name key h = record {
    links = ground arith;
    actors = ground arith;
    keys = ground arith;
  }

find_actor-update_links :
    (f : Links → Links) (id k n : String) (actors : Map ActorGroup)
    → find_actor k n (update_links f id actors) ≡ find_actor k n actors
unfolding update_links
find_actor-update_links f id k n actors = elim (Option-cases (lookup id actors)) [
  | inl e ↦ rw (e, update_links)
  | inr (g, e) ↦
      ground (arith, eq_iff id k, lookup-insert id k (record g { links = f g.links }) actors)
]

-- The link definitions are in order, the actor groups are in step with them, and every actor is in
-- the group of its registered key.
pub record IsSound (P : Platform) (h : Host) : Type 0 where
  pub consistent : IsConsistent P h
  pub matching : KeysMatch h

module _ (P : Platform) (h : Host) where
  SameTables-IsSound : (h' : Host) → SameTables h h' → IsSound P h → IsSound P h'
  SameTables-IsSound h' same v = record {
    consistent = record {
      distinct = rw same.links v.consistent.distinct;
      hashed = rw same.links v.consistent.hashed;
      in_step = rw (same.links, same.actors) v.consistent.in_step;
    };
    matching = record { placed = rw (same.actors, same.keys) v.matching.placed };
  }

  pub start_provider-IsSound :
      (link_name ref : String) → IsSound P h → IsSound P (start_provider P link_name ref h).1
  start_provider-IsSound link_name ref =
      SameTables-IsSound _ (start_provider-SameTables P link_name ref h)

  pub stop_provider-IsSound :
      (link_name key : String) → IsSound P h → IsSound P (stop_provider P link_name key h).1
  stop_provider-IsSound link_name key =
      SameTables-IsSound _ (stop_provider-SameTables P link_name key h)

  pub reconcile_actor-IsSound :
      (name actor_ref : String) (n : ℕ)
      → IsSound P h
      → IsSound P (reconcile_actor P name actor_ref n h).1
  reconcile_actor-IsSound name actor_ref n v = record {
    consistent = reconcile_actor-IsConsistent P name actor_ref n h v.consistent;
    matching = reconcile_actor-KeysMatch P name actor_ref n h v.matching;
  }

  pub remove_actor-IsSound : (name : String) → IsSound P h → IsSound P (remove_actor name h).1
  remove_actor-IsSound name v = record {
    consistent = remove_actor-IsConsistent P name h v.consistent;
    matching = remove_actor-KeysMatch name h v.matching;
  }

  -- a change of the links of one group
  relinked-KeysMatch :
      (f : Links → Links) (id : String) (h' : Host)
      → h'.actors ≡ update_links f id h.actors
      → h'.actor_keys ≡ h.actor_keys
      → KeysMatch h
      → KeysMatch h'
  relinked-KeysMatch f id h' actors keys v = record {
    placed = λ k n a e.
        rw keys
          (v.placed k n a (sym (find_actor-update_links f id k n h.actors) ∙ (rw actors at e)));
  }

module _ (L : Lattice) (P : Platform) (ld : LinkDefinition) (h : Host) where
  add_linkdef-KeysMatch : KeysMatch h → KeysMatch (add_linkdef L P ld h).1
  unfolding add_linkdef announce store_link
  add_linkdef-KeysMatch v = elim (Option-cases (lookup (hash_of P ld) h.links)) [
    | inl fresh ↦
        relinked-KeysMatch P h (link_entity ld) ld.actor_id _ (ground arith) (ground arith) v
    | inr (old, there) ↦ rw (there, add_linkdef) v
  ]

  delete_linkdef-KeysMatch : KeysMatch h → KeysMatch (delete_linkdef L P ld h).1
  unfolding delete_linkdef announce drop_link
  delete_linkdef-KeysMatch v = elim (Option-cases (lookup (hash_of P ld) h.links)) [
    | inl missing ↦ rw (missing, delete_linkdef) v
    | inr (stored, there) ↦
        relinked-KeysMatch P h (unlink_entity stored) stored.actor_id _ (ground arith)
          (ground arith) v
  ]

  pub add_linkdef-IsSound : IsSound P h → IsSound P (add_linkdef L P ld h).1
  add_linkdef-IsSound v = record {
    consistent = add_linkdef-IsConsistent L P ld h v.consistent;
    matching = add_linkdef-KeysMatch v.matching;
  }

  pub delete_linkdef-IsSound : IsSound P h → IsSound P (delete_linkdef L P ld h).1
  delete_linkdef-IsSound v = record {
    consistent = delete_linkdef-IsConsistent L P ld h v.consistent;
    matching = delete_linkdef-KeysMatch v.matching;
  }
