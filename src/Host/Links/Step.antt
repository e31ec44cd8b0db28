-- ===== src/Host/Links/Step.antt =====
-- The computed links after a definition has been stored or removed.
use kasmcloud.Prelude.{
  String, ◌≡◌, refl, Option, none, some, [], ◌∷◌, arith, ◌==◌, eq_iff, if◌then◌else◌, Bool-cases,
  Option-cases, inl, inr,
}
use kasmcloud.Map.{Map, lookup, insert, remove}
use kasmcloud.Map.Laws.{lookup-insert, lookup-remove}
use kasmcloud.External.{LinkDefinition}
use kasmcloud.External.Platform.{Platform}
use kasmcloud.Handler.{Links}
use kasmcloud.Host.{ActorGroup}
use kasmcloud.Host.Links.{entity_of, update_links, linkdef_hash, hash_of}
use kasmcloud.Host.Links.View.{names, AllHashed, entity_if, names-hash}

-- what a change of a group's links makes of a group that may be there
abbrev pub map_links : (Links → Links) → Option ActorGroup → Option ActorGroup
map_links f none = none
map_links f (some g) = some (record g { links = f g.links })

pub lookup-update_links :
    (f : Links → Links) (id k : String) (actors : Map ActorGroup)
    → lookup k (update_links f id actors)
      ≡ (if id == k then map_links f (lookup k actors) else lookup k actors)
unfolding update_links
lookup-update_links f id k actors = elim (Option-cases (lookup id actors)) [
  | inl e ↦ ground (arith, eq_iff id k)
  | inr (g, e) ↦
      ground (arith, eq_iff id k, lookup-insert id k (record g { links = f g.links }) actors)
]

-- the links of a group that is there afterwards
pub links-update_links :
    (f : Links → Links) (id k : String) (actors : Map ActorGroup) (g : ActorGroup)
    → lookup k (update_links f id actors) ≡ some g
    → (g' : ActorGroup) × (lookup k actors ≡ some g')
      × (g.links ≡ (if id == k then f g'.links else g'.links))
links-update_links f id k actors g e = elim (Option-cases (lookup k actors)) [
  | inl q ↦ absurd (ground (arith, lookup-update_links f id k actors))
  | inr (g', q) ↦ (g', q, ground (arith, lookup-update_links f id k actors))
]

module _ (P : Platform) where
  pub insert-AllHashed :
      (ld : LinkDefinition) (m : Map LinkDefinition)
      → AllHashed P m
      → AllHashed P (insert (hash_of P ld) ld m)
  unfolding insert
  insert-AllHashed ld [] a = (refl, tt)
  insert-AllHashed ld ((id, w) ∷ m) a =
      ground (arith, insert-AllHashed ld m a.1, eq_iff id (hash_of P ld))

  pub remove-AllHashed :
      (id : String) (m : Map LinkDefinition) → AllHashed P m → AllHashed P (remove id m)
  unfolding remove
  remove-AllHashed id [] a = a
  remove-AllHashed id ((j, w) ∷ m) a = ground (arith, remove-AllHashed id m a.1)

  pub lookup-AllHashed :
      (id : String) (ld : LinkDefinition) (m : Map LinkDefinition)
      → AllHashed P m
      → lookup id m ≡ some ld
      → hash_of P ld ≡ id
  unfolding lookup
  lookup-AllHashed id ld [] a h = cc
  lookup-AllHashed id ld ((j, w) ∷ m) a h =
      ground (arith, lookup-AllHashed id ld m a.1, eq_iff j id)

  module _ (k c l : String) (ld : LinkDefinition) (m : Map LinkDefinition) where
    pub entity_if-insert :
        lookup (hash_of P ld) m ≡ none
        → entity_if P k c l (lookup (linkdef_hash P k c l) (insert (hash_of P ld) ld m)) ≡ (
            if names k c l ld
            then some (entity_of ld)
            else entity_if P k c l (lookup (linkdef_hash P k c l) m))
    entity_if-insert fresh =
        rw (lookup-insert (hash_of P ld) (linkdef_hash P k c l) ld m)
          (elim (Bool-cases (names k c l ld)) [
            | inl e ↦
                ground
                  (arith, names-hash P k c l ld e, eq_iff (hash_of P ld) (linkdef_hash P k c l))
            | inr e ↦ ground (arith, eq_iff (hash_of P ld) (linkdef_hash P k c l))
          ])

    pub entity_if-remove :
        (id : String)
        → hash_of P ld ≡ id
        → lookup id m ≡ some ld
        → entity_if P k c l (lookup (linkdef_hash P k c l) (remove id m))
          ≡ (if names k c l ld then none else entity_if P k c l (lookup (linkdef_hash P k c l) m))
    entity_if-remove id hashed there =
        rw (lookup-remove id (linkdef_hash P k c l) m) (elim (Bool-cases (names k c l ld)) [
          | inl e ↦ ground (arith, names-hash P k c l ld e, eq_iff id (linkdef_hash P k c l))
          | inr e ↦ ground (arith, eq_iff id (linkdef_hash P k c l))
        ])
