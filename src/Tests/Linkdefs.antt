-- ===== src/Tests/Linkdefs.antt =====
-- Witnesses for the theorems on the host's link definitions.
use kasmcloud.Prelude.{◌≡◌, refl, [], ◌∷◌, ok, err, anyhow}
use kasmcloud.Map.{lookup}
use kasmcloud.External.{LinkDefinition}
use kasmcloud.Host.{Host}
use kasmcloud.Host.Links.{linkdef_hash, get_actor_links, add_linkdef, delete_linkdef}
use kasmcloud.Host.Links.Table.{find_link}
use kasmcloud.Host.Links.View.{entity_if, find_link-get_actor_links}
use kasmcloud.Host.Links.Consistency.{IsConsistent, add_linkdef-IsConsistent}
use kasmcloud.Host.Links.Faults.{add_linkdef_skips, delete_linkdef_retry}
use kasmcloud.Tests.Fixture.{mute, lattice, platform, empty_host, http_link}

pub empty_host-IsConsistent : IsConsistent platform empty_host
unfolding lookup
empty_host-IsConsistent = record { distinct = tt; hashed = tt; in_step = λ k c l g e. absurd (cc) }

-- the host with one link
abbrev linked : Host
linked = (add_linkdef lattice platform http_link empty_host).1

add_linkdef-IsConsistent_example :
    IsConsistent platform (add_linkdef lattice platform http_link empty_host).1
add_linkdef-IsConsistent_example =
    add_linkdef-IsConsistent lattice platform http_link empty_host empty_host-IsConsistent

find_link-get_actor_links_example :
    find_link "wasmcloud:httpserver" "default"
      (get_actor_links "MECHO" (("MECHOwasmcloud:httpserverdefault", http_link) ∷ []))
    ≡ entity_if platform "MECHO" "wasmcloud:httpserver" "default" (
        lookup
          (linkdef_hash platform "MECHO" "wasmcloud:httpserver" "default")
          (("MECHOwasmcloud:httpserverdefault", http_link) ∷ []))
unfolding linkdef_hash lookup
find_link-get_actor_links_example =
    find_link-get_actor_links platform "MECHO" "wasmcloud:httpserver" "default"
      (("MECHOwasmcloud:httpserverdefault", http_link) ∷ []) (refl, tt) (refl, tt)

-- a link of another actor to another contract, whose key and contract make the same text
abbrev lost_link : LinkDefinition
lost_link = record http_link { actor_id = "MECHOwasm"; contract_id = "cloud:httpserver" }

add_linkdef_skips_example :
    add_linkdef mute platform lost_link (add_linkdef mute platform http_link empty_host).1
    ≡ (ok tt, (add_linkdef mute platform http_link empty_host).1)
add_linkdef_skips_example = add_linkdef_skips mute platform http_link lost_link empty_host refl

delete_linkdef_retry_example :
    delete_linkdef mute platform http_link (delete_linkdef mute platform http_link linked).1 ≡ (
      err (anyhow "attempt to remove a non-exitent link"),
      (delete_linkdef mute platform http_link linked).1,
    )
delete_linkdef_retry_example = delete_linkdef_retry mute platform http_link linked
