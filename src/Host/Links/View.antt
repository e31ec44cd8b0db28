-- ===== src/Host/Links/View.antt =====
-- What `get_actor_links` gives: the link of an actor under a contract and a name is the one whose
-- definition is stored under their hash, in whatever order the map is iterated.
use kasmcloud.Prelude.{
  String, ◌≡◌, refl, ◌∙◌, Bool, true, Option, none, some, List, [], ◌∷◌, arith, ◌==◌, ◌&&◌, eq_iff,
  if◌then◌else◌, Bool-cases, inl, inr,
}
use kasmcloud.Map.{Map, lookup, values, Distinct}
use kasmcloud.External.{WasmCloudEntity, LinkDefinition}
use kasmcloud.External.Platform.{Platform}
use kasmcloud.Handler.{Links}
use kasmcloud.Host.Links.{
  entity_of, link_entity, of_actor, fold_links, get_actor_links, linkdef_hash, hash_of,
}
use kasmcloud.Host.Links.Table.{find_link, names_link, find_link-link_entity}

-- the link definition is for this actor, contract and link name
unfoldable pub names : String → String → String → LinkDefinition → Bool
names k c l ld = ld.actor_id == k && names_link c l ld

-- the last link definition of a list that is for them
pick :
    String → String → String → List LinkDefinition → Option WasmCloudEntity → Option WasmCloudEntity
pick k c l [] found = found
pick k c l (ld ∷ lds) found = pick k c l lds (if names k c l ld then some (entity_of ld) else found)

find_link-fold_links :
    (k c l : String) (lds : List LinkDefinition) (links : Links)
    → find_link c l (fold_links links (of_actor k lds)) ≡ pick k c l lds (find_link c l links)
unfolding fold_links of_actor pick names
find_link-fold_links k c l [] links = refl
find_link-fold_links k c l (ld ∷ lds) links = elim (Bool-cases (ld.actor_id == k)) [
  | inl e ↦
      rw (
        e,
        find_link-fold_links k c l lds (link_entity ld links),
        find_link-link_entity c l ld links,
      )
  | inr e ↦ rw (e, find_link-fold_links k c l lds links)
]

module _ (P : Platform) where
  -- Every link definition is stored under its hash.
  abbrev pub AllHashed : Map LinkDefinition → Type 0
  AllHashed [] = Unit
  AllHashed ((id, ld) ∷ m) = (hash_of P ld ≡ id) × AllHashed m

  abbrev pub entity_if : String → String → String → Option LinkDefinition → Option WasmCloudEntity
  entity_if k c l none = none
  entity_if k c l (some ld) = if names k c l ld then some (entity_of ld) else none

  pub names-hash :
      (k c l : String) (ld : LinkDefinition)
      → names k c l ld ≡ true
      → hash_of P ld ≡ linkdef_hash P k c l
  unfolding names
  names-hash k c l ld h = cc (actor, contract, link)
    where
      actor : ld.actor_id ≡ k
      actor = ground (arith, eq_iff ld.actor_id k)

      contract : ld.contract_id ≡ c
      contract = ground (arith, eq_iff ld.contract_id c)

      link : ld.link_name ≡ l
      link = ground (arith, eq_iff ld.link_name l)

  pick_absent :
      (k c l : String) (m : Map LinkDefinition) (found : Option WasmCloudEntity)
      → AllHashed m
      → lookup (linkdef_hash P k c l) m ≡ none
      → pick k c l (values m) found ≡ found
  unfolding pick lookup
  pick_absent k c l [] found a h = refl
  pick_absent k c l ((id, ld) ∷ m) found a h = elim (Bool-cases (names k c l ld)) [
    | inl e ↦ absurd (ground (arith, names-hash k c l ld e, eq_iff id (linkdef_hash P k c l)))
    | inr e ↦ rw (e, pick) (pick_absent k c l m found a.1 (ground arith))
  ]

  pick-lookup :
      (k c l : String) (m : Map LinkDefinition)
      → Distinct m
      → AllHashed m
      → pick k c l (values m) none ≡ entity_if k c l (lookup (linkdef_hash P k c l) m)
  unfolding pick lookup
  pick-lookup k c l [] d a = refl
  pick-lookup k c l ((id, ld) ∷ m) d a = elim (Bool-cases (id == linkdef_hash P k c l)) [
    | inl e ↦ rw e (
        pick_absent k c l m (if names k c l ld then some (entity_of ld) else none) a.1
          (rw (← (eq_iff id (linkdef_hash P k c l)).0 e) d.0))
    | inr e ↦ elim (Bool-cases (names k c l ld)) [
      | inl f ↦ absurd (ground (arith, names-hash k c l ld f, eq_iff id (linkdef_hash P k c l)))
      | inr f ↦ rw (e, f, pick) (pick-lookup k c l m d.1 a.1)
    ]
  ]

  -- With the definitions stored under their hashes and distinct keys, the links computed for an
  -- actor have, under a contract and a link name, exactly the entity of the definition stored
  -- under the hash of the three, if that definition is for them, and nothing otherwise, in
  -- whatever order the map is iterated.
  pub find_link-get_actor_links :
      (k c l : String) (m : Map LinkDefinition)
      → Distinct m
      → AllHashed m
      → find_link c l (get_actor_links k m) ≡ entity_if k c l (lookup (linkdef_hash P k c l) m)
  unfolding get_actor_links lookup
  find_link-get_actor_links k c l m d a =
      find_link-fold_links k c l (values m) [] ∙ pick-lookup k c l m d a
