-- ===== src/Host/Links.antt =====
-- `get_actor_links`, `add_linkdef`, `delete_linkdef` and `linkdef_hash` of lib.rs.
pub mod Table
pub mod View
pub mod Step
pub mod Consistency
pub mod Faults
pub mod Untouched
pub mod Refinement
use kasmcloud.Prelude.{
  ℕ, String, Bool, Option, none, some, List, [], ◌∷◌, Result, ok, err, Error, anyhow, Action, lift,
  raise, context, add_context, ◌>>=◌, ◌>>◌, format, ◌==◌, if◌then◌else◌, unwrap_or,
}
use kasmcloud.Map.{Map, lookup, insert, remove, values}
use kasmcloud.External.{Bytes, WasmCloudEntity, LinkDefinition}
use kasmcloud.External.Effects.{Trace, Effect, perform}
use kasmcloud.External.Lattice.{Lattice}
use kasmcloud.External.Platform.{Platform}
use kasmcloud.Handler.{Links}
use kasmcloud.Host.{Host, ActorGroup, outside}

-- The provider's side of a link, as an actor sees it.
abbrev pub entity_of : LinkDefinition → WasmCloudEntity
entity_of ld = record {
  public_key = ld.provider_id;
  link_name = ld.link_name;
  contract_id = ld.contract_id;
}

-- `links.entry(contract_id).or_default().insert(link_name, entity)`
unfoldable pub link_entity : LinkDefinition → Links → Links
link_entity ld links =
    insert ld.contract_id
      (insert ld.link_name (entity_of ld) (unwrap_or (lookup ld.contract_id links) [])) links

-- `links.get_mut(contract_id)`, and if it is there its `remove(link_name)`
unfoldable pub unlink_entity : LinkDefinition → Links → Links
unlink_entity ld links = elim (lookup ld.contract_id links) [
  | none ↦ links
  | some targets ↦ insert ld.contract_id (remove ld.link_name targets) links
]

unfoldable pub of_actor : String → List LinkDefinition → List LinkDefinition
of_actor key [] = []
of_actor key (ld ∷ lds) = if ld.actor_id == key then ld ∷ of_actor key lds else of_actor key lds

unfoldable pub fold_links : Links → List LinkDefinition → Links
fold_links links [] = links
fold_links links (ld ∷ lds) = fold_links (link_entity ld links) lds

unfoldable pub get_actor_links : String → Map LinkDefinition → Links
unfolding of_actor fold_links
get_actor_links key links = fold_links [] (of_actor key (values links))

-- `self.actors.read().await.get(id)`, and if it is there a change of the group's links
unfoldable pub update_links : (Links → Links) → String → Map ActorGroup → Map ActorGroup
update_links f id actors = elim (lookup id actors) [
  | none ↦ actors
  | some group ↦ insert id (record group { links = f group.links }) actors
]

module _ (P : Platform) where
  -- The digest is fed the three texts one after another.
  unfoldable pub linkdef_hash : String → String → String → String
  linkdef_hash actor_id contract_id link_name =
      P.sha256_hex (format (actor_id ∷ contract_id ∷ link_name ∷ []))

  abbrev pub hash_of : LinkDefinition → String
  hash_of ld = linkdef_hash ld.actor_id ld.contract_id ld.link_name

module _ (L : Lattice) (P : Platform) where
  abbrev pub linkdef_topic : Host → LinkDefinition → String → String
  linkdef_topic h ld event = format (
      "wasmbus.rpc." ∷ h.config.lattice_prefix ∷ "." ∷ ld.provider_id ∷ "." ∷ ld.link_name
      ∷ ".linkdefs." ∷ event ∷ [])

  -- The provider is told over `prov_rpc_nats`.
  unfoldable pub announce : LinkDefinition → String → String → Action Host Error (Unit {0})
  announce ld event failure h =
      elim (context "failed to encode link definition" (P.encode_linkdef ld)) [
        | err e ↦ (err e, h)
        | ok msgp ↦
            let topic = linkdef_topic h ld event in
            outside
              (perform (Effect.published topic msgp) λ t. context failure (L.publish topic msgp t))
              h
      ]

  unfoldable pub store_link : LinkDefinition → Host → Host
  store_link ld h = record h {
    links = insert (hash_of P ld) ld h.links;
    actors = update_links (link_entity ld) ld.actor_id h.actors;
  }

  unfoldable pub add_linkdef : LinkDefinition → Action Host Error (Unit {0})
  add_linkdef ld h = elim (lookup (hash_of P ld) h.links) [
    | some _ ↦ (ok tt, h)
    | none ↦ announce ld "put" "failed to publish link deinition" (store_link ld h)
  ]

  unfoldable pub drop_link : String → LinkDefinition → Host → Host
  drop_link id ld h = record h {
    links = remove id h.links;
    actors = update_links (unlink_entity ld) ld.actor_id h.actors;
  }

  unfoldable pub delete_linkdef : LinkDefinition → Action Host Error (Unit {0})
  delete_linkdef ld h = elim (lookup (hash_of P ld) h.links) [
    | none ↦ (err (anyhow "attempt to remove a non-exitent link"), h)
    | some stored ↦
        announce stored "del" "failed to publish link definition deletion"
          (drop_link (hash_of P ld) stored h)
  ]
