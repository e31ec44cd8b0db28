-- ===== src/Host/Links/Table.antt =====
-- A link table read by contract and link name, and what each change of it does to that reading.
use kasmcloud.Prelude.{
  String, ◌≡◌, Bool, Option, none, some, [], arith, ◌==◌, ◌&&◌, eq_iff, if◌then◌else◌, Option-cases,
  inl, inr,
}
use kasmcloud.Map.{Map, lookup, insert, remove}
use kasmcloud.Map.Laws.{lookup-insert, lookup-remove}
use kasmcloud.External.{WasmCloudEntity, LinkDefinition}
use kasmcloud.Handler.{Links}
use kasmcloud.Host.Links.{entity_of, link_entity, unlink_entity}

abbrev pub in_targets : String → Option (Map WasmCloudEntity) → Option WasmCloudEntity
in_targets l none = none
in_targets l (some targets) = lookup l targets

abbrev pub find_link : String → String → Links → Option WasmCloudEntity
find_link c l links = in_targets l (lookup c links)

-- the link definition is for this contract and link name
abbrev pub names_link : String → String → LinkDefinition → Bool
names_link c l ld = ld.contract_id == c && ld.link_name == l

pub find_link-link_entity :
    (c l : String) (ld : LinkDefinition) (links : Links)
    → find_link c l (link_entity ld links)
      ≡ (if names_link c l ld then some (entity_of ld) else find_link c l links)
unfolding link_entity lookup
find_link-link_entity c l ld links = elim (Option-cases (lookup ld.contract_id links)) [
  | inl e ↦ ground (
    arith,
    eq_iff ld.contract_id c,
    lookup-insert ld.contract_id c (insert ld.link_name (entity_of ld) []) links,
    lookup-insert ld.link_name l (entity_of ld) [],
  )
  | inr (m, e) ↦ ground (
    arith,
    eq_iff ld.contract_id c,
    lookup-insert ld.contract_id c (insert ld.link_name (entity_of ld) m) links,
    lookup-insert ld.link_name l (entity_of ld) m,
  )
]

pub find_link-unlink_entity :
    (c l : String) (ld : LinkDefinition) (links : Links)
    → find_link c l (unlink_entity ld links)
      ≡ (if names_link c l ld then none else find_link c l links)
unfolding unlink_entity
find_link-unlink_entity c l ld links = elim (Option-cases (lookup ld.contract_id links)) [
  | inl e ↦ ground (arith, eq_iff ld.contract_id c)
  | inr (m, e) ↦ ground (
    arith,
    eq_iff ld.contract_id c,
    lookup-insert ld.contract_id c (remove ld.link_name m) links,
    lookup-remove ld.link_name l m,
  )
]
