-- ===== src/Host/Links/Refinement.antt =====
-- The link tables of a host against what they stand for: one slot for each actor, contract and link
-- name, which the first definition for it fills until the slot is cleared.
pub mod Runs
use kasmcloud.Prelude.{
  String, ◌≡◌, ◌⊎◌, refl, ap, ◌∙◌, inl, inr, true, Option, none, some, List, [], ◌∷◌, arith,
  unwrap_or, Option-cases, Bool-cases, if◌then◌else◌,
}
use kasmcloud.Map.{lookup}
use kasmcloud.Map.Laws.{lookup-insert, lookup-remove}
use kasmcloud.External.{WasmCloudEntity, LinkDefinition}
use kasmcloud.External.Lattice.{Lattice}
use kasmcloud.External.Platform.{Platform}
use kasmcloud.Host.{Host, ActorGroup}
use kasmcloud.Host.Links.{
  entity_of, linkdef_hash, hash_of, announce, store_link, drop_link, add_linkdef, delete_linkdef,
}
use kasmcloud.Host.Links.Table.{find_link}
use kasmcloud.Host.Links.View.{names, entity_if, names-hash}
use kasmcloud.Host.Links.Step.{entity_if-insert, entity_if-remove, lookup-AllHashed}
use kasmcloud.Host.Links.Consistency.{
  IsConsistent, add_linkdef-IsConsistent, delete_linkdef-IsConsistent,
}
use kasmcloud.Host.Links.Faults.{announce-links}

-- actor, contract, link name
abbrev pub Slots : Type 0
Slots = String → String → String → Option WasmCloudEntity

-- A slot that is free takes the provider's entity.
abbrev pub fill : LinkDefinition → Slots → Slots
fill ld slots k c l =
    if names k c l ld then some (unwrap_or (slots k c l) (entity_of ld)) else slots k c l

abbrev pub clear : LinkDefinition → Slots → Slots
clear ld slots k c l = if names k c l ld then none else slots k c l

-- What a host is asked to do with its link definitions.
pub data Command : Type 0 where
  put : LinkDefinition → Command
  del : LinkDefinition → Command

abbrev pub about : Command → LinkDefinition
about (put ld) = ld
about (del ld) = ld

abbrev pub run_slots : List Command → Slots → Slots
run_slots [] slots = slots
run_slots (put ld ∷ cs) slots = run_slots cs (fill ld slots)
run_slots (del ld ∷ cs) slots = run_slots cs (clear ld slots)

module _ (L : Lattice) (P : Platform) where
  abbrev pub step : Command → Host → Host
  step (put ld) h = (add_linkdef L P ld h).1
  step (del ld) h = (delete_linkdef L P ld h).1

  abbrev pub run : List Command → Host → Host
  run [] h = h
  run (c ∷ cs) h = run cs (step c h)

-- The definitions are for the same actor, contract and link name.
pub record SameSlot (ld d : LinkDefinition) : Type 0 where
  pub actor : d.actor_id ≡ ld.actor_id
  pub contract : d.contract_id ≡ ld.contract_id
  pub link : d.link_name ≡ ld.link_name

names-SameSlot :
    (k c l : String) (ld d : LinkDefinition) → SameSlot ld d → names k c l d ≡ names k c l ld
unfolding names
names-SameSlot k c l ld d s = rw (s.actor, s.contract, s.link) refl

module _ (P : Platform) where
  abbrev pub view : Host → Slots
  view h k c l = entity_if P k c l (lookup (linkdef_hash P k c l) h.links)

  view_free :
      (k c l : String) (ld : LinkDefinition) (h : Host)
      → names k c l ld ≡ true
      → lookup (hash_of P ld) h.links ≡ none
      → view h k c l ≡ none
  view_free k c l ld h named free = rw (← (names-hash P k c l ld named), free) refl

  view_taken :
      (k c l : String) (ld d : LinkDefinition) (h : Host)
      → names k c l ld ≡ true
      → SameSlot ld d
      → lookup (hash_of P ld) h.links ≡ some d
      → view h k c l ≡ some (entity_of d)
  view_taken k c l ld d h named s there =
      rw (← (names-hash P k c l ld named), there, names-SameSlot k c l ld d s, named) refl

  -- Whatever is stored under a definition's hash is for the same slot.
  abbrev pub Apart : LinkDefinition → Host → Type 0
  Apart ld h = (d : LinkDefinition) → lookup (hash_of P ld) h.links ≡ some d → SameSlot ld d

module _ (L : Lattice) (P : Platform) (ld : LinkDefinition) (h : Host) (apart : Apart P ld h) where
  pub add_linkdef-view :
      (k c l : String) → view P (add_linkdef L P ld h).1 k c l ≡ fill ld (view P h) k c l
  unfolding add_linkdef store_link
  add_linkdef-view k c l = elim (Option-cases (lookup (hash_of P ld) h.links)) [
    | inl free ↦
        rw (free, add_linkdef)
          (ap (λ m. entity_if P k c l (lookup (linkdef_hash P k c l) m))
              (announce-links L P ld _ _ _)
            ∙ entity_if-insert P k c l ld h.links free
            ∙ filled free)
    | inr (d, there) ↦
        rw (there, add_linkdef)
          (elim (Bool-cases (names k c l ld)) [
            | inl named ↦ rw (named, view_taken P k c l ld d h named (apart d there) there) refl
            | inr other ↦ rw other refl
          ])
  ]
    where
      filled :
          lookup (hash_of P ld) h.links ≡ none
          → (if names k c l ld then some (entity_of ld) else view P h k c l)
            ≡ fill ld (view P h) k c l
      filled free = elim (Bool-cases (names k c l ld)) [
        | inl named ↦ rw (named, view_free P k c l ld h named free) refl
        | inr other ↦ rw other refl
      ]

  pub delete_linkdef-view :
      IsConsistent P h
      → (k c l : String) → view P (delete_linkdef L P ld h).1 k c l ≡ clear ld (view P h) k c l
  unfolding delete_linkdef drop_link
  delete_linkdef-view v k c l = elim (Option-cases (lookup (hash_of P ld) h.links)) [
    | inl free ↦
        rw (free, delete_linkdef)
          (elim (Bool-cases (names k c l ld)) [
            | inl named ↦ rw (named, view_free P k c l ld h named free) refl
            | inr other ↦ rw other refl
          ])
    | inr (d, there) ↦
        rw (there, delete_linkdef)
          (ap (λ m. entity_if P k c l (lookup (linkdef_hash P k c l) m))
              (announce-links L P d _ _ _)
            ∙ entity_if-remove P k c l d h.links (hash_of P ld)
                (lookup-AllHashed P (hash_of P ld) d h.links v.hashed there) there
            ∙ ap (λ b. if b then none else view P h k c l)
                (names-SameSlot k c l ld d (apart d there)))
  ]
