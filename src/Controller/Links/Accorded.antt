-- ===== src/Controller/Links/Accorded.antt =====
-- What `add_link` and `delete_link` make of the links that the controller counts.
use kasmcloud.Prelude.{
  String, ◌≡◌, ◌≢◌, refl, ap, ◌∙◌, ◌↔◌, inl, inr, none, some, List, [], ◌∷◌, ok, Result-cases,
  Option-cases, Bool-cases, any, ◌==◌,
}
use kasmcloud.Map.{Map, lookup, insert}
use kasmcloud.External.{LinkDefinition}
use kasmcloud.External.Lattice.{Lattice}
use kasmcloud.External.Platform.{Platform}
use kasmcloud.Apis.{Link, LinkStatus}
use kasmcloud.Host.{Host}
use kasmcloud.Host.Links.{hash_of, add_linkdef}
use kasmcloud.Controller.{Ctx, Cluster}
use kasmcloud.Controller.Links.{
  id_of, link_id, is_settled, resolve_link, set_insert, set_remove, add_link, release_link,
  delete_settled, delete_link,
}
use kasmcloud.Controller.Links.Counting.{
  patch_link-rest, hold_link_shared, hold_link_taken, add_link_held,
}
use kasmcloud.Controller.Links.Accord.{
  Announces, Held, InAccord, add_linkdef-takes, delete_linkdef-drops,
}
use kasmcloud.Controller.Links.Changes.{free_hash, grown, recounted, shrunk}

-- A name is left after an insertion.
set_insert-some : (name : String) (names : List String) → set_insert name names ≢ []
set_insert-some name [] = λ m. cc
set_insert-some name (n ∷ names) = elim (Bool-cases (any (λ x. x == name) (n ∷ names))) [
  | inl e ↦ rw e (λ m. cc)
  | inr e ↦ rw e (λ m. cc)
]

module _ (L : Lattice) (P : Platform) (announces : Announces L P) (Q : LinkDefinition → Type 0)
    (same : (ld d : LinkDefinition)
      → Q ld
      → Q d
      → (hash_of P ld ≡ hash_of P d) ↔ (id_of ld ≡ id_of d)) where
  abbrev pub Agrees : Ctx → Type 0
  Agrees ctx = InAccord P Q ctx.host.links ctx.links

  moved :
      (a a' : Map LinkDefinition) (b b' : Held)
      → a' ≡ a
      → b' ≡ b
      → InAccord P Q a b
      → InAccord P Q a' b'
  moved a a' b b' e f v = rw (e, f) v

  module _ (C : Cluster) (link : Link) (ctx : Ctx) (v : Agrees ctx) (ld : LinkDefinition)
      (r : resolve_link C link ctx.patches ≡ ok ld) where
    held_anew : Q ld → lookup (id_of ld) ctx.links ≡ none → Agrees (add_link L P C link ctx).1
    held_anew q free =
        let (t, s) =
          add_linkdef-takes L P announces ld ctx.host
            (free_hash P Q same ctx.host.links ctx.links v ld q free) in
        let next : Ctx = record ctx {
          host = (add_linkdef L P ld ctx.host).1;
          links = insert (id_of ld) (ld, link.name ∷ []) ctx.links;
        } in
        let (h, l) = patch_link-rest link ld next in
        let e =
          add_link_held L P C link ctx ld next r (hold_link_taken L P link.name ld ctx free t) in
        let g = grown P Q same ctx.host.links ctx.links v ld link.name q free in
        rw e (moved _ _ _ _ (ap (λ (y : Host). y.links) h ∙ s) l g)

    joined :
        (held : LinkDefinition) (names : List String)
        → lookup (id_of ld) ctx.links ≡ some (held, names)
        → Agrees (add_link L P C link ctx).1
    joined held names there =
        let next : Ctx = record ctx {
          links = insert (id_of ld) (held, set_insert link.name names) ctx.links;
        } in
        let (h, l) = patch_link-rest link ld next in
        let e =
          add_link_held L P C link ctx ld next r
            (hold_link_shared L P link.name ld ctx held names there) in
        let g =
          recounted P Q same ctx.host.links ctx.links v (id_of ld) held names there
            (set_insert link.name names) (set_insert-some link.name names) in
        rw e (moved _ _ _ _ (ap (λ (y : Host). y.links) h) l g)

  pub add_link-InAccord :
      (C : Cluster) (link : Link) (ctx : Ctx)
      → ((ld : LinkDefinition) → resolve_link C link ctx.patches ≡ ok ld → Q ld)
      → Agrees ctx
      → Agrees (add_link L P C link ctx).1
  unfolding add_link
  add_link-InAccord C link ctx q v = elim (Result-cases (resolve_link C link ctx.patches)) [
    | inl (n, e) ↦ rw (e, add_link) v
    | inr (ld, e) ↦ elim (Option-cases (lookup (id_of ld) ctx.links)) [
      | inl free ↦ held_anew C link ctx v ld e (q ld e) free
      | inr ((held, names), there) ↦ joined C link ctx v ld e held names there
    ]
  ]

  released :
      (id : String) (held : LinkDefinition) (names left : List String) (ctx : Ctx)
      → Agrees ctx
      → lookup id ctx.links ≡ some (held, names)
      → Agrees (release_link L P id held left ctx).1
  unfolding release_link
  released id held names [] ctx v there =
      let (t, s) =
        delete_linkdef-drops L P announces held held ctx.host
          (v.backed id held names there).is_stored in
      let g = shrunk P Q same ctx.host.links ctx.links v id held names there in
      rw (t, release_link) (moved _ _ _ _ s refl g)
  released id held names (n ∷ left) ctx v there =
      recounted P Q same ctx.host.links ctx.links v id held names there (n ∷ left) (λ m. cc)

  delete_settled-InAccord :
      (name contract_id : String) (s : LinkStatus) (ctx : Ctx)
      → Agrees ctx
      → Agrees (delete_settled L P name contract_id s ctx).1
  delete_settled-InAccord name contract_id s ctx v =
      elim (Option-cases (lookup (link_id contract_id s.actor_key s.link_name) ctx.links)) [
        | inl e ↦ rw (e, delete_settled) v
        | inr ((held, names), e) ↦
            rw (e, delete_settled) (released _ held names (set_remove name names) ctx v e)
      ]

  pub delete_link-InAccord :
      (link : Link) (ctx : Ctx) → Agrees ctx → Agrees (delete_link L P link ctx).1
  unfolding delete_link
  delete_link-InAccord link ctx v = elim (Option-cases link.status) [
    | inl e ↦ rw (e, delete_link) v
    | inr (s, e) ↦ elim (Bool-cases (is_settled s)) [
      | inr f ↦ rw (e, delete_link, f) v
      | inl f ↦
          rw (e, delete_link, f) (delete_settled-InAccord link.name link.spec.contract_id s ctx v)
    ]
  ]
