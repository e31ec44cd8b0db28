-- ===== src/Host/Links/Consistency.antt =====
-- Each actor group's links are those that the host would compute for it anew.
use kasmcloud.Prelude.{
  String, ◌≡◌, Option, none, some, ◌==◌, if◌then◌else◌, Bool-cases, Option-cases, inl, inr,
  Result-cases,
}
use kasmcloud.Map.{Map, lookup, Distinct}
use kasmcloud.Map.Laws.{insert-Distinct, remove-Distinct}
use kasmcloud.External.{WasmCloudEntity, LinkDefinition}
use kasmcloud.External.Lattice.{Lattice}
use kasmcloud.External.Platform.{Platform}
use kasmcloud.Handler.{Links}
use kasmcloud.Host.{Host, ActorGroup}
use kasmcloud.Host.Links.{
  entity_of, link_entity, unlink_entity, update_links, linkdef_hash, hash_of, announce, store_link,
  drop_link, add_linkdef, delete_linkdef,
}
use kasmcloud.Host.Links.Table.{
  find_link, names_link, find_link-link_entity, find_link-unlink_entity,
}
use kasmcloud.Host.Links.View.{names, AllHashed, entity_if}
use kasmcloud.Host.Links.Step.{
  links-update_links, insert-AllHashed, remove-AllHashed, lookup-AllHashed, entity_if-insert,
  entity_if-remove,
}

module _ (P : Platform) where
  abbrev pub InStep : Map ActorGroup → Map LinkDefinition → Type 0
  InStep actors links =
      (k c l : String) (g : ActorGroup)
      → lookup k actors ≡ some g
      → find_link c l g.links ≡ entity_if P k c l (lookup (linkdef_hash P k c l) links)

  pub record IsConsistent (h : Host) : Type 0 where
    pub distinct : Distinct h.links
    pub hashed : AllHashed P h.links
    pub in_step : InStep h.actors h.links

  -- A change of one definition, made alike in the links of its actor's group and in the map.
  InStep-update :
      (f : Links → Links) (ld : LinkDefinition) (actors : Map ActorGroup)
      (links links' : Map LinkDefinition) (new : Option WasmCloudEntity)
      → ((c l : String) (t : Links)
          → find_link c l (f t) ≡ (if names_link c l ld then new else find_link c l t))
      → ((k c l : String)
          → entity_if P k c l (lookup (linkdef_hash P k c l) links') ≡ (
              if names k c l ld
              then new
              else entity_if P k c l (lookup (linkdef_hash P k c l) links)))
      → InStep actors links
      → InStep (update_links f ld.actor_id actors) links'
  unfolding names
  InStep-update f ld actors links links' new table stored old k c l g e =
      let (g', q, changed) = links-update_links f ld.actor_id k actors g e in
      let kept = old k c l g' q in
      elim (Bool-cases (ld.actor_id == k)) [
        | inl here ↦ rw (changed, here, table c l g'.links, stored k c l, here, kept)
        | inr other ↦ rw (changed, other, stored k c l, other) kept
      ]

module _ (L : Lattice) (P : Platform) where
  announce-IsConsistent :
      (ld : LinkDefinition) (event failure : String) (h : Host)
      → IsConsistent P h
      → IsConsistent P (announce L P ld event failure h).1
  unfolding announce
  announce-IsConsistent ld event failure h v = elim (Result-cases (P.encode_linkdef ld)) [
    | inl (e, p) ↦ rw (p, announce) v
    | inr (msgp, p) ↦
        rw (p, announce) (record { distinct = v.distinct; hashed = v.hashed; in_step = v.in_step })
  ]

  store_link-IsConsistent :
      (ld : LinkDefinition) (h : Host)
      → lookup (hash_of P ld) h.links ≡ none
      → IsConsistent P h
      → IsConsistent P (store_link L P ld h)
  unfolding store_link
  store_link-IsConsistent ld h fresh v = record {
    distinct = insert-Distinct (hash_of P ld) ld h.links v.distinct;
    hashed = insert-AllHashed P ld h.links v.hashed;
    in_step =
        InStep-update P (link_entity ld) ld h.actors h.links _ (some (entity_of ld))
          (λ c l t. find_link-link_entity c l ld t)
          (λ k c l. entity_if-insert P k c l ld h.links fresh) v.in_step;
  }

  drop_link-IsConsistent :
      (id : String) (ld : LinkDefinition) (h : Host)
      → lookup id h.links ≡ some ld
      → IsConsistent P h
      → IsConsistent P (drop_link L P id ld h)
  unfolding drop_link
  drop_link-IsConsistent id ld h there v = record {
    distinct = remove-Distinct id h.links v.distinct;
    hashed = remove-AllHashed P id h.links v.hashed;
    in_step =
        InStep-update P (unlink_entity ld) ld h.actors h.links _ none
          (λ c l t. find_link-unlink_entity c l ld t)
          (λ k c l.
            entity_if-remove P k c l ld h.links id (lookup-AllHashed P id ld h.links v.hashed there)
              there)
          v.in_step;
  }

  -- In a host whose link definitions have distinct keys and are stored under their hashes, and
  -- whose actor groups each have exactly the links that the stored definitions give them, adding
  -- any definition, whether it is skipped, announced or fails, keeps all three.
  pub add_linkdef-IsConsistent :
      (ld : LinkDefinition) (h : Host) → IsConsistent P h → IsConsistent P (add_linkdef L P ld h).1
  unfolding add_linkdef
  add_linkdef-IsConsistent ld h v = elim (Option-cases (lookup (hash_of P ld) h.links)) [
    | inl fresh ↦
        rw (fresh, add_linkdef)
          (announce-IsConsistent ld _ _ _ (store_link-IsConsistent ld h fresh v))
    | inr (old, there) ↦ rw (there, add_linkdef) v
  ]

  -- In a host whose link definitions have distinct keys and are stored under their hashes, and
  -- whose actor groups each have exactly the links that the stored definitions give them, deleting
  -- any definition, whether it is there or not and whether the deletion is announced or not, keeps
  -- all three.
  pub delete_linkdef-IsConsistent :
      (ld : LinkDefinition) (h : Host)
      → IsConsistent P h
      → IsConsistent P (delete_linkdef L P ld h).1
  unfolding delete_linkdef
  delete_linkdef-IsConsistent ld h v = elim (Option-cases (lookup (hash_of P ld) h.links)) [
    | inl missing ↦ rw (missing, delete_linkdef) v
    | inr (stored, there) ↦
        rw (there, delete_linkdef)
          (announce-IsConsistent stored _ _ _ (drop_link-IsConsistent _ stored h there v))
  ]
