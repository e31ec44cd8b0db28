-- ===== src/Host/Interleaving/Tables.antt =====
-- The link tables between two sections of interleaved tasks, and what the sections do to them.
use kasmcloud.Prelude.{
  String, ◌≡◌, refl, ◌∙◌, inl, inr, true, false, Option, none, some, ◌==◌, Bool-cases,
  if◌then◌else◌,
}
use kasmcloud.Map.{Map, lookup, insert, remove, Distinct}
use kasmcloud.External.{WasmCloudEntity, LinkDefinition}
use kasmcloud.External.Platform.{Platform}
use kasmcloud.Handler.{Links}
use kasmcloud.Host.{Host, ActorGroup}
use kasmcloud.Host.Links.{update_links, linkdef_hash, hash_of}
use kasmcloud.Host.Links.Table.{find_link, names_link}
use kasmcloud.Host.Links.View.{names, AllHashed, entity_if, names-hash}
use kasmcloud.Host.Links.Step.{links-update_links, entity_if-insert, entity_if-remove}
use kasmcloud.Host.Interleaving.{
  LinkTask, putting, taking, GroupTask, no_group, locking, creating, State, is_pending,
}

module _ (P : Platform) where
  abbrev pub stored_at : String → String → String → Map LinkDefinition → Option WasmCloudEntity
  stored_at k c l links = entity_if P k c l (lookup (linkdef_hash P k c l) links)

  -- Links of an actor are those that the stored definitions give it, but for what is pending.
  abbrev pub Matches : LinkTask → String → Map LinkDefinition → Links → Type 0
  Matches t k links own =
      (c l : String) → is_pending t k c l ≡ false → find_link c l own ≡ stored_at k c l links

  -- what the first section of the link task has done to the stored definitions
  abbrev pub HasBegun : LinkTask → Map LinkDefinition → Type 0
  HasBegun (putting ld) links = lookup (hash_of P ld) links ≡ some ld
  HasBegun (taking ld) links = lookup (hash_of P ld) links ≡ none
  HasBegun _ links = Unit

  abbrev pub HasDrafted : LinkTask → Map LinkDefinition → GroupTask → Type 0
  HasDrafted t links no_group = Unit
  HasDrafted t links (locking subject) = Unit
  HasDrafted t links (creating subject own) = Matches t subject links own

  pub record IsOrdered (s : State) : Type 0 where
    pub distinct : Distinct s.host.links
    pub hashed : AllHashed P s.host.links
    pub in_step :
        (k : String) (g : ActorGroup)
        → lookup k s.host.actors ≡ some g
        → Matches s.link k s.host.links g.links
    pub begun : HasBegun s.link s.host.links
    pub drafted : HasDrafted s.link s.host.links s.group

  pub stored_at-put :
      (k c l : String) (ld : LinkDefinition) (links : Map LinkDefinition)
      → lookup (hash_of P ld) links ≡ none
      → names k c l ld ≡ false
      → stored_at k c l (insert (hash_of P ld) ld links) ≡ stored_at k c l links
  stored_at-put k c l ld links fresh other = entity_if-insert P k c l ld links fresh ∙ rw other refl

  pub stored_at-take :
      (k c l id : String) (ld : LinkDefinition) (links : Map LinkDefinition)
      → hash_of P ld ≡ id
      → lookup id links ≡ some ld
      → names k c l ld ≡ false
      → stored_at k c l (remove id links) ≡ stored_at k c l links
  stored_at-take k c l id ld links hashed there other =
      entity_if-remove P k c l ld links id hashed there ∙ rw other refl

  -- The second section brings the one slot that is pending into step.
  pub update_links-Matches :
      (f : Links → Links) (ld : LinkDefinition) (h : Host) (new : Option WasmCloudEntity)
      → ((c l : String) (own : Links)
          → find_link c l (f own) ≡ (if names_link c l ld then new else find_link c l own))
      → ((k c l : String) → names k c l ld ≡ true → stored_at k c l h.links ≡ new)
      → ((k : String) (g : ActorGroup)
          → lookup k h.actors ≡ some g
          → (c l : String) → names k c l ld ≡ false
          → find_link c l g.links ≡ stored_at k c l h.links)
      → (k : String) (g : ActorGroup) → lookup k (update_links f ld.actor_id h.actors) ≡ some g
      → (c l : String) → find_link c l g.links ≡ stored_at k c l h.links
  unfolding names
  update_links-Matches f ld h new table stored old k g there c l =
      let (g', q, changed) = links-update_links f ld.actor_id k h.actors g there in
      elim (Bool-cases (ld.actor_id == k)) [
        | inl here ↦ elim (Bool-cases (names_link c l ld)) [
          | inl named ↦
              rw (changed, here, table c l g'.links, named, stored k c l (rw (here, named) refl))
                refl
          | inr other ↦
              rw (changed, here, table c l g'.links, other) (old k g' q c l (rw (here, other) refl))
        ]
        | inr other ↦ rw (changed, other) (old k g' q c l (rw other refl))
      ]

  pub named-stored :
      (ld : LinkDefinition) (links : Map LinkDefinition) (o : Option LinkDefinition)
      → lookup (hash_of P ld) links ≡ o
      → (k c l : String) → names k c l ld ≡ true
      → stored_at k c l links ≡ entity_if P k c l o
  named-stored ld links o e k c l named = rw (← (names-hash P k c l ld named), e) refl
