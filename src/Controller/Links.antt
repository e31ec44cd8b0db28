-- ===== src/Controller/Links.antt =====
-- `add_link` and `delete_link` of main.rs.
pub mod Resolved
pub mod Counting
pub mod Accord
pub mod Changes
pub mod Accorded
pub mod Calls
pub mod Undone
pub mod Delivery
use kasmcloud.Prelude.{
  ℕ, String, Bool, true, false, not, Option, none, some, List, [], ◌∷◌, Result, ok, err, Error,
  Action, pure, raise, lift, gets, ask, modify, ◌>>=◌, ◌>>◌, is_empty, any, format, ◌==◌, ◌&&◌,
  ◌||◌, if◌then◌else◌,
}
use kasmcloud.Map.{Map, lookup, insert, remove}
use kasmcloud.External.{LinkDefinition}
use kasmcloud.External.Lattice.{Lattice}
use kasmcloud.External.Platform.{Platform}
use kasmcloud.Apis.{
  Actor, Provider, ActorStatus, ProviderStatus, Link, LinkSpec, LinkStatus, Source,
}
use kasmcloud.Host.{Host}
use kasmcloud.Host.Links.{add_linkdef, delete_linkdef}
use kasmcloud.Controller.{Next, await_change, requeue, Patch, link_status, Ctx, Cluster}

-- A step of `add_link`: on the definition being made, with early returns.
abbrev pub Step : Type 0
Step = LinkDefinition → Result Next LinkDefinition

-- `LinkDefinition::default()` with the contract and the values of the specification
abbrev pub blank : LinkSpec → LinkDefinition
blank spec = record {
  actor_id = "";
  provider_id = "";
  link_name = "";
  contract_id = spec.contract_id;
  values = spec.values;
}

unfoldable pub from_spec : LinkSpec → Result Next LinkDefinition
from_spec spec =
    if not (is_empty spec.link_name)
    then ok (record (blank spec) { link_name = spec.link_name })
    else if not (is_empty spec.provider.key)
    then err await_change
    else ok (blank spec)

-- All three keys of the status are set.
abbrev pub is_settled : LinkStatus → Bool
is_settled s =
    not (is_empty s.provider_key) && not (is_empty s.actor_key) && not (is_empty s.link_name)

unfoldable pub from_status : Option LinkStatus → LinkDefinition → LinkDefinition
from_status none ld = ld
from_status (some s) ld =
    if is_settled s
    then record ld { actor_id = s.actor_key; provider_id = s.provider_key; link_name = s.link_name }
    else ld

-- the public key of an actor's status
abbrev actor_key_of : Option ActorStatus → LinkDefinition → Result Next LinkDefinition
actor_key_of none ld = err (requeue 10)
actor_key_of (some status) ld =
    if is_empty status.public_key
    then err (requeue 10)
    else ok (record ld { actor_id = status.public_key })

abbrev got_actor : Result Error Actor → LinkDefinition → Result Next LinkDefinition
got_actor (err _) ld = err (requeue 60)
got_actor (ok actor) ld = actor_key_of actor.status ld

unfoldable pub find_actor_id : Result Error Actor → Source → Step
find_actor_id got source ld =
    if not (is_empty ld.actor_id)
    then ok ld
    else if not (is_empty source.key)
    then ok (record ld { actor_id = source.key })
    else if not (is_empty source.name)
    then got_actor got ld
    else err await_change

-- the public key of a provider's status
abbrev provider_key_of : String → Option ProviderStatus → String → Step
provider_key_of key none link ld = err (requeue 10)
provider_key_of key (some status) link ld =
    if is_empty status.public_key
    then err (requeue 10)
    else if not (is_empty key) && not (status.public_key == key)
    then err (requeue 10)
    else ok (record ld { provider_id = status.public_key; link_name = link })

abbrev got_provider : String → Result Error Provider → Step
got_provider key (err _) ld = err (requeue 60)
got_provider key (ok provider) ld =
    if not (is_empty ld.link_name) && not (ld.link_name == provider.spec.link)
    then err await_change
    else provider_key_of key provider.status provider.spec.link ld

unfoldable pub find_provider_id : Result Error Provider → Source → Step
find_provider_id got source ld =
    if not (is_empty ld.provider_id || is_empty ld.link_name)
    then ok ld
    else if not (is_empty source.name)
    then got_provider source.key got ld
    else if not (is_empty source.key)
    then ok (record ld { provider_id = source.key })
    else err await_change

-- `HashSet::insert` and `HashSet::remove`
abbrev pub set_insert : String → List String → List String
set_insert s xs = if any (λ x. x == s) xs then xs else s ∷ xs

unfoldable pub set_remove : String → List String → List String
set_remove s [] = []
set_remove s (x ∷ xs) = if x == s then set_remove s xs else x ∷ set_remove s xs

unfoldable pub link_id : String → String → String → String
link_id contract_id actor_id link_name =
    format (contract_id ∷ "." ∷ actor_id ∷ "." ∷ link_name ∷ [])

abbrev pub id_of : LinkDefinition → String
id_of ld = link_id ld.contract_id ld.actor_id ld.link_name

-- a status as `PartialEq` compares it
abbrev same_text : List String → List String → Bool
same_text [] [] = true
same_text (x ∷ xs) (y ∷ ys) = x == y && same_text xs ys
same_text _ _ = false

abbrev same_status : LinkStatus → LinkStatus → Bool
same_status s t =
    s.provider_key == t.provider_key
    && s.actor_key == t.actor_key
    && s.link_name == t.link_name
    && same_text s.conditions t.conditions

abbrev is_current : Option LinkStatus → LinkStatus → Bool
is_current none status = false
is_current (some s) status = same_status s status

abbrev pub status_of : LinkDefinition → LinkStatus
status_of ld = record {
  provider_key = ld.provider_id;
  actor_key = ld.actor_id;
  link_name = ld.link_name;
  conditions = [];
}

-- The patch is sent if the status is new; whether it arrives only decides what is logged.
unfoldable pub patch_link : Link → LinkDefinition → Ctx → Ctx
patch_link link ld ctx =
    if is_current link.status (status_of ld)
    then ctx
    else record ctx { patches = link_status link.name (status_of ld) ∷ ctx.patches }

module _ (C : Cluster) where
  -- Everything before the lock on `links` is taken.
  unfoldable pub resolve_link : Link → List Patch → Result Next LinkDefinition
  resolve_link link patches = elim (from_spec link.spec) [
    | err n ↦ err n
    | ok ld₀ ↦
        let got_actor = C.get_actor link.spec.actor.name patches in
        elim (find_actor_id got_actor link.spec.actor (from_status link.status ld₀)) [
          | err n ↦ err n
          | ok ld₁ ↦
              find_provider_id (C.get_provider link.spec.provider.name patches) link.spec.provider
                ld₁
        ]
  ]

module _ (L : Lattice) (P : Platform) where
  -- The vacant entry is filled only if the host has taken the definition.
  unfoldable pub hold_link : String → LinkDefinition → Action Ctx Next (Unit {0})
  hold_link name ld ctx = elim (lookup (id_of ld) ctx.links) [
    | none ↦
        let (r, host) = add_linkdef L P ld ctx.host in
        elim r [
          | err _ ↦ (err await_change, record ctx { host = host })
          | ok _ ↦ (
            ok tt,
            record ctx { host = host; links = insert (id_of ld) (ld, name ∷ []) ctx.links },
          )
        ]
    | some (held, names) ↦
        (ok tt, record ctx { links = insert (id_of ld) (held, set_insert name names) ctx.links })
  ]

  unfoldable pub add_link : Cluster → Link → Ctx → Next × Ctx
  add_link C link ctx = elim (resolve_link C link ctx.patches) [
    | err n ↦ (n, ctx)
    | ok ld ↦
        let (r, ctx') = hold_link link.name ld ctx in
        elim r [ err n ↦ (n, ctx') | ok _ ↦ (await_change, patch_link link ld ctx') ]
  ]

  -- The entry goes when no link is left behind it and the host has dropped the definition.
  unfoldable pub release_link : String → LinkDefinition → List String → Ctx → Next × Ctx
  release_link id held [] ctx =
      let (r, host) = delete_linkdef L P held ctx.host in
      elim r [
        | err _ ↦ (requeue 10, record ctx { host = host; links = insert id (held, []) ctx.links })
        | ok _ ↦ (await_change, record ctx { host = host; links = remove id ctx.links })
      ]
  release_link id held (n ∷ names) ctx =
      (await_change, record ctx { links = insert id (held, n ∷ names) ctx.links })

  abbrev pub delete_settled : String → String → LinkStatus → Ctx → Next × Ctx
  delete_settled name contract_id s ctx =
      let id = link_id contract_id s.actor_key s.link_name in
      elim (lookup id ctx.links) [
        | none ↦ (await_change, ctx)
        | some (held, names) ↦ release_link id held (set_remove name names) ctx
      ]

  unfoldable pub delete_link : Link → Ctx → Next × Ctx
  unfolding set_remove
  delete_link link ctx = elim link.status [
    | none ↦ (await_change, ctx)
    | some s ↦
        if is_settled s
        then delete_settled link.name link.spec.contract_id s ctx
        else (await_change, ctx)
  ]
