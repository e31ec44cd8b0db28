-- ===== src/Controller/Links/Undone.antt =====
-- What the deletion of a link undoes of its addition.
use kasmcloud.Prelude.{
  String, ◌≡◌, ◌≢◌, refl, ◌∙◌, true, false, some, List, [], ◌∷◌, ok, arith, any, ◌==◌, eq_iff,
  eq_refl,
}
use kasmcloud.Map.{lookup}
use kasmcloud.External.{LinkDefinition}
use kasmcloud.External.Lattice.{Lattice}
use kasmcloud.External.Platform.{Platform}
use kasmcloud.Apis.{Link}
use kasmcloud.Controller.{Ctx, Cluster}
use kasmcloud.Controller.Links.{
  id_of, link_id, is_settled, status_of, resolve_link, set_insert, set_remove, add_link,
  delete_link,
}
use kasmcloud.Controller.Links.Counting.{add_link_shares, delete_link_shared}
use kasmcloud.Controller.Links.Resolved.{resolve_link-keyed, resolve_link-contract}

-- the name is not among the names
abbrev pub IsNew : String → List String → Type 0
IsNew name names = any (λ x. x == name) names ≡ false

set_remove-absent :
    (name : String) (names : List String) → IsNew name names → set_remove name names ≡ names
unfolding set_remove
set_remove-absent name [] e = refl
set_remove-absent name (x ∷ xs) e = ground (arith, set_remove-absent name xs)

set_remove-set_insert :
    (name : String) (names : List String)
    → IsNew name names
    → set_remove name (set_insert name names) ≡ names
unfolding set_remove
set_remove-set_insert name names e = rw (e, eq_refl name) (set_remove-absent name names e)

module _ (L : Lattice) (P : Platform) (C : Cluster) (link : Link) (ctx : Ctx)
    (ld : LinkDefinition) where
  -- the link as it is once its status has been reported
  abbrev pub reported_link : Link
  reported_link = record link { status = some (status_of ld) }

  abbrev pub joined : Ctx
  joined = (add_link L P C link ctx).1

  abbrev pub undone : Ctx
  undone = (delete_link L P reported_link joined).1

  settled :
      resolve_link C link ctx.patches ≡ ok ld → ld.link_name ≢ "" → is_settled (status_of ld) ≡ true
  settled r named =
      let (x, y) = resolve_link-keyed C link ctx.patches ld r in
      ground (arith, eq_iff ld.actor_id "", eq_iff ld.provider_id "", eq_iff ld.link_name "")

  -- When a link resolves, with a link name, to an id that is held already and its own name is not
  -- counted there yet, add_link puts the name in front of those behind the entry; and deleting
  -- that link once its status is reported gives back the entry as it was, and the host is all
  -- along as it was.
  pub add_link-delete_link :
      (held : LinkDefinition) (n : String) (rest : List String)
      → resolve_link C link ctx.patches ≡ ok ld
      → ld.link_name ≢ ""
      → lookup (id_of ld) ctx.links ≡ some (held, n ∷ rest)
      → IsNew link.name (n ∷ rest)
      → (lookup (id_of ld) joined.links ≡ some (held, link.name ∷ n ∷ rest))
        × (undone.host ≡ ctx.host)
        × (lookup (id_of ld) undone.links ≡ some (held, n ∷ rest))
  add_link-delete_link held n rest r named there new =
      let (host, counted) = add_link_shares L P C link ctx ld held (n ∷ rest) r there in
      let same : link_id link.spec.contract_id ld.actor_id ld.link_name ≡ id_of ld =
        rw (resolve_link-contract C link ctx.patches ld r) refl in
      let (host', left) =
        delete_link_shared L P reported_link (status_of ld) joined refl (settled r named) held
          (set_insert link.name (n ∷ rest)) n rest (rw same counted)
          (set_remove-set_insert link.name (n ∷ rest) new) in
      (rw new at counted, host' ∙ host, rw same at left)
