-- ===== src/Tests/Resources.antt =====
-- Witnesses for the theorems on the link resources.
use kasmcloud.Prelude.{
  String, ◌≡◌, refl, none, some, [], ◌∷◌, ok, err, anyhow, add_context, arith, eq_iff,
}
use kasmcloud.Map.{lookup, insert}
use kasmcloud.Apis.{Link, LinkSpec, LinkStatus}
use kasmcloud.Host.Links.{
  add_linkdef, delete_linkdef, linkdef_hash, hash_of, store_link, drop_link, announce, update_links,
}
use kasmcloud.Controller.{Ctx, Cluster}
use kasmcloud.Controller.Links.{
  resolve_link, from_spec, from_status, find_actor_id, find_provider_id, status_of, add_link,
  delete_link, set_remove, link_id, hold_link, patch_link,
}
use kasmcloud.Controller.Links.Resolved.{resolve_link_stable}
use kasmcloud.Controller.Links.Undone.{joined, undone, add_link-delete_link}
use kasmcloud.Controller.Links.Counting.{dead_entry}
use kasmcloud.Tests.Fixture.{lattice, mute, platform, empty_host, http_link}

-- An API server that has nothing.
abbrev pub cluster : Cluster
cluster = record {
  get_actor = λ name ps. err (anyhow "not found");
  get_provider = λ name ps. err (anyhow "not found");
}

abbrev pub spec : LinkSpec
spec = record {
  link_name = "default";
  provider = record { key = "VHTTP"; name = "" };
  actor = record { key = "MECHO"; name = "" };
  contract_id = "wasmcloud:httpserver";
  values = [];
}

abbrev pub status : LinkStatus
status = record {
  provider_key = "VHTTP";
  actor_key = "MECHO";
  link_name = "default";
  conditions = [];
}

abbrev pub first_link : Link
first_link = record { name = "first"; spec = spec; status = some status }

abbrev pub second_link : Link
second_link = record { name = "second"; spec = spec; status = some status }

abbrev empty_ctx : Ctx
empty_ctx = record { host = empty_host; links = []; patches = [] }

-- one link behind its definition
abbrev one_link : Ctx
one_link = (add_link lattice platform cluster first_link empty_ctx).1

abbrev here : String
here = "wasmcloud:httpserver.MECHO.default"

resolve_link_stable_example :
    resolve_link cluster (record first_link { status = some (status_of http_link) }) []
    ≡ ok http_link
unfolding resolve_link from_spec from_status find_actor_id find_provider_id
resolve_link_stable_example =
    resolve_link_stable cluster cluster (record first_link { status = none }) [] [] http_link refl
      (λ e. ground (arith, eq_iff "default" ""))

add_link-delete_link_example :
    (lookup here (joined lattice platform cluster second_link one_link http_link).links
      ≡ some (http_link, "second" ∷ "first" ∷ []))
    × ((undone lattice platform cluster second_link one_link http_link).host ≡ one_link.host)
    × (lookup here (undone lattice platform cluster second_link one_link http_link).links
        ≡ some (http_link, "first" ∷ []))
unfolding add_link resolve_link from_spec from_status find_actor_id find_provider_id hold_link
    patch_link link_id lookup insert add_linkdef linkdef_hash store_link announce update_links
add_link-delete_link_example =
    add_link-delete_link lattice platform cluster second_link one_link http_link http_link "first"
      [] refl (λ e. ground (arith, eq_iff "default" "")) refl refl

dead_entry_example :
    (lookup
        (hash_of platform http_link)
        (add_link mute platform cluster second_link
          (delete_link mute platform first_link one_link).1).1.host.links
      ≡ none)
    × (lookup here
          (add_link mute platform cluster second_link
            (delete_link mute platform first_link one_link).1).1.links
        ≡ some (http_link, "second" ∷ []))
unfolding add_link resolve_link from_spec from_status find_actor_id find_provider_id hold_link
    patch_link link_id lookup insert add_linkdef linkdef_hash store_link announce update_links
    set_remove delete_linkdef drop_link
dead_entry_example =
    dead_entry mute platform first_link status one_link refl refl http_link ("first" ∷ [])
      (add_context "failed to publish link definition deletion" (anyhow "no responders")) refl refl
      refl cluster second_link http_link refl refl
