-- ===== src/Controller/Links/Resolved.antt =====
-- What `add_link` makes of a link resource before it touches the tables.
use kasmcloud.Prelude.{
  ◌≡◌, ◌≢◌, refl, ◌∙◌, inl, inr, Option, none, some, List, Result, ok, err, Error, arith,
  Result-cases, Option-cases, eq_iff,
}
use kasmcloud.External.{LinkDefinition}
use kasmcloud.Apis.{Actor, Provider, Link, LinkSpec, LinkStatus, Source}
use kasmcloud.Controller.{Patch, Cluster}
use kasmcloud.Controller.Links.{
  from_spec, from_status, find_actor_id, find_provider_id, resolve_link, status_of,
}

find_actor_id-keyed :
    (got : Result Error Actor) (source : Source) (ld ld' : LinkDefinition)
    → find_actor_id got source ld ≡ ok ld'
    → ld'.actor_id ≢ ""
unfolding find_actor_id
find_actor_id-keyed (err e) source ld ld' h =
    ground (arith, eq_iff ld.actor_id "", eq_iff source.key "", eq_iff ld'.actor_id "")
find_actor_id-keyed (ok actor) source ld ld' h = elim (Option-cases actor.status) [
  | inl e ↦ ground (arith, eq_iff ld.actor_id "", eq_iff source.key "", eq_iff ld'.actor_id "")
  | inr (s, e) ↦ ground (
    arith,
    eq_iff ld.actor_id "",
    eq_iff source.key "",
    eq_iff ld'.actor_id "",
    eq_iff s.public_key "",
  )
]

find_provider_id-keyed :
    (got : Result Error Provider) (source : Source) (ld ld' : LinkDefinition)
    → find_provider_id got source ld ≡ ok ld'
    → ld'.provider_id ≢ ""
unfolding find_provider_id
find_provider_id-keyed (err e) source ld ld' h =
    ground (arith, eq_iff ld.provider_id "", eq_iff source.key "", eq_iff ld'.provider_id "")
find_provider_id-keyed (ok provider) source ld ld' h = elim (Option-cases provider.status) [
  | inl e ↦
      ground (arith, eq_iff ld.provider_id "", eq_iff source.key "", eq_iff ld'.provider_id "")
  | inr (s, e) ↦ ground (
    arith,
    eq_iff ld.provider_id "",
    eq_iff source.key "",
    eq_iff ld'.provider_id "",
    eq_iff s.public_key "",
  )
]

-- the contract and the values come from the specification and stay
abbrev SameTerms : LinkDefinition → LinkDefinition → Type 0
SameTerms ld ld' = (ld'.contract_id ≡ ld.contract_id) × (ld'.values ≡ ld.values)

find_actor_id-terms :
    (got : Result Error Actor) (source : Source) (ld ld' : LinkDefinition)
    → find_actor_id got source ld ≡ ok ld'
    → SameTerms ld ld'
unfolding find_actor_id
find_actor_id-terms (err e) source ld ld' h = ground arith
find_actor_id-terms (ok actor) source ld ld' h = elim (Option-cases actor.status) [
  | inl e ↦ ground arith
  | inr (s, e) ↦ ground arith
]

find_provider_id-terms :
    (got : Result Error Provider) (source : Source) (ld ld' : LinkDefinition)
    → find_provider_id got source ld ≡ ok ld'
    → SameTerms ld ld' × (ld'.actor_id ≡ ld.actor_id)
unfolding find_provider_id
find_provider_id-terms (err e) source ld ld' h = ground arith
find_provider_id-terms (ok provider) source ld ld' h = elim (Option-cases provider.status) [
  | inl e ↦ ground arith
  | inr (s, e) ↦ ground arith
]

module _ (C : Cluster) (link : Link) (patches : List Patch) where
  -- The definition passed through the specification, the status, the actor and the provider.
  record Passed (ld : LinkDefinition) : Type 0 where
    start : LinkDefinition
    keyed : LinkDefinition
    specified : from_spec link.spec ≡ ok start
    actor_found :
        find_actor_id
          (C.get_actor link.spec.actor.name patches)
          link.spec.actor
          (from_status link.status start)
        ≡ ok keyed
    provider_found :
        find_provider_id (C.get_provider link.spec.provider.name patches) link.spec.provider keyed
        ≡ ok ld

  resolve_link-Passed : (ld : LinkDefinition) → resolve_link C link patches ≡ ok ld → Passed ld
  unfolding resolve_link
  resolve_link-Passed ld h = elim (Result-cases (from_spec link.spec)) [
    | inl (n, p) ↦ absurd (ground arith)
    | inr (start, p) ↦
        elim (Result-cases (
          find_actor_id (C.get_actor link.spec.actor.name patches) link.spec.actor
            (from_status link.status start))) [
              | inl (n, q) ↦ absurd (ground arith)
              | inr (keyed, q) ↦ record {
                start = start;
                keyed = keyed;
                specified = p;
                actor_found = q;
                provider_found = ground arith;
              }
            ]
  ]

  -- A link that resolves has an actor and a provider: neither key of its definition is empty.
  pub resolve_link-keyed :
      (ld : LinkDefinition)
      → resolve_link C link patches ≡ ok ld
      → (ld.actor_id ≢ "") × (ld.provider_id ≢ "")
  resolve_link-keyed ld h =
      let p = resolve_link-Passed ld h in
      (
        rw (find_provider_id-terms _ _ p.keyed ld p.provider_found).1
            (find_actor_id-keyed _ _ _ p.keyed p.actor_found),
        find_provider_id-keyed _ _ p.keyed ld p.provider_found,
      )

-- a definition with all its keys passes both searches as it is
settled_passes :
    (got : Result Error Actor) (got' : Result Error Provider) (a p : Source) (ld : LinkDefinition)
    → ld.actor_id ≢ ""
    → ld.provider_id ≢ ""
    → ld.link_name ≢ ""
    → (find_actor_id got a ld ≡ ok ld) × (find_provider_id got' p ld ≡ ok ld)
unfolding find_actor_id find_provider_id
settled_passes got got' a p ld x y z = (
  ground (arith, eq_iff ld.actor_id ""),
  ground (arith, eq_iff ld.provider_id "", eq_iff ld.link_name ""),
)

from_spec-terms :
    (spec : LinkSpec) (ld : LinkDefinition)
    → from_spec spec ≡ ok ld
    → (ld.contract_id ≡ spec.contract_id) × (ld.values ≡ spec.values)
unfolding from_spec
from_spec-terms spec ld h = ground arith

from_status-terms : (s : Option LinkStatus) (ld : LinkDefinition) → SameTerms ld (from_status s ld)
unfolding from_status
from_status-terms none ld = (refl, refl)
from_status-terms (some s) ld = ground arith

-- the status of a resolved definition brings that definition back
from_status-status_of :
    (ld start : LinkDefinition)
    → SameTerms start ld
    → ld.actor_id ≢ ""
    → ld.provider_id ≢ ""
    → ld.link_name ≢ ""
    → from_status (some (status_of ld)) start ≡ ld
unfolding from_status
from_status-status_of ld start same x y z =
    ground (arith, eq_iff ld.actor_id "", eq_iff ld.provider_id "", eq_iff ld.link_name "")

pub resolve_link-contract :
    (C : Cluster) (link : Link) (patches : List Patch) (ld : LinkDefinition)
    → resolve_link C link patches ≡ ok ld
    → ld.contract_id ≡ link.spec.contract_id
resolve_link-contract C link patches ld h =
    let p = resolve_link-Passed C link patches ld h in
    let ((c₁, _), _) = find_provider_id-terms _ _ p.keyed ld p.provider_found in
    let (c₂, _) = find_actor_id-terms _ _ _ p.keyed p.actor_found in
    let (c₃, _) = from_status-terms link.status p.start in
    let (c₄, _) = from_spec-terms link.spec p.start p.specified in c₁ ∙ c₂ ∙ c₃ ∙ c₄

-- Once a link has resolved to a definition with a link name, and its status says so, it resolves
-- to that definition for good, whatever has become of the actor and the provider that it names.
pub resolve_link_stable :
    (C C' : Cluster) (link : Link) (patches patches' : List Patch) (ld : LinkDefinition)
    → resolve_link C link patches ≡ ok ld
    → ld.link_name ≢ ""
    → resolve_link C' (record link { status = some (status_of ld) }) patches' ≡ ok ld
unfolding resolve_link
resolve_link_stable C C' link patches patches' ld h named =
    let p = resolve_link-Passed C link patches ld h in
    let (x, y) = resolve_link-keyed C link patches ld h in
    let ((c₁, v₁), _) = find_provider_id-terms _ _ p.keyed ld p.provider_found in
    let (c₂, v₂) = find_actor_id-terms _ _ _ p.keyed p.actor_found in
    let (c₃, v₃) = from_status-terms link.status p.start in
    let (a, b) =
      settled_passes (C'.get_actor link.spec.actor.name patches')
        (C'.get_provider link.spec.provider.name patches') link.spec.actor link.spec.provider ld x y
        named in
    let back = from_status-status_of ld p.start (c₁ ∙ c₂ ∙ c₃, v₁ ∙ v₂ ∙ v₃) x y named in
    ground (arith, p.specified, back, a, b)
