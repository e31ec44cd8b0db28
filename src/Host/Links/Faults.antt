-- ===== src/Host/Links/Faults.antt =====
-- Where the host's link operations do not do what their callers ask of them.
use kasmcloud.Prelude.{
  String, ◌≡◌, ap, ◌∙◌, none, some, [], ◌∷◌, ok, err, anyhow, arith, format, Option-cases, inl, inr,
}
use kasmcloud.Map.{lookup}
use kasmcloud.Map.Laws.{lookup-insert_self, lookup-remove_self}
use kasmcloud.External.{LinkDefinition}
use kasmcloud.External.Lattice.{Lattice}
use kasmcloud.External.Platform.{Platform}
use kasmcloud.Host.{Host}
use kasmcloud.Host.Links.{
  linkdef_hash, hash_of, announce, store_link, drop_link, add_linkdef, delete_linkdef,
}

module _ (L : Lattice) (P : Platform) where
  pub announce-links :
      (ld : LinkDefinition) (event failure : String) (h : Host)
      → (announce L P ld event failure h).1.links ≡ h.links
  unfolding announce
  announce-links ld event failure h = ground arith

  add_linkdef_known :
      (ld d : LinkDefinition) (h : Host)
      → lookup (hash_of P ld) h.links ≡ some d
      → add_linkdef L P ld h ≡ (ok tt, h)
  unfolding add_linkdef
  add_linkdef_known ld d h e = ground arith

  delete_linkdef_unknown :
      (ld : LinkDefinition) (h : Host)
      → lookup (hash_of P ld) h.links ≡ none
      → delete_linkdef L P ld h ≡ (err (anyhow "attempt to remove a non-exitent link"), h)
  unfolding delete_linkdef
  delete_linkdef_unknown ld h e = ground arith

  -- Whatever comes of it, `add_linkdef` leaves a definition under the hash.
  pub add_linkdef-stores :
      (ld : LinkDefinition) (h : Host)
      → (d : LinkDefinition) × (lookup (hash_of P ld) (add_linkdef L P ld h).1.links ≡ some d)
  unfolding add_linkdef store_link
  add_linkdef-stores ld h = elim (Option-cases (lookup (hash_of P ld) h.links)) [
    | inl e ↦ (
      ld,
      rw (e, add_linkdef)
          (ap (lookup (hash_of P ld)) (announce-links ld _ _ _)
            ∙ lookup-insert_self (hash_of P ld) ld h.links),
    )
    | inr (d, e) ↦ (d, rw (e, add_linkdef) e)
  ]

  pub delete_linkdef-removes :
      (ld : LinkDefinition) (h : Host)
      → lookup (hash_of P ld) (delete_linkdef L P ld h).1.links ≡ none
  unfolding delete_linkdef drop_link
  delete_linkdef-removes ld h = elim (Option-cases (lookup (hash_of P ld) h.links)) [
    | inl e ↦ rw (e, delete_linkdef) e
    | inr (d, e) ↦
        rw (e, delete_linkdef)
          (ap (lookup (hash_of P ld)) (announce-links d _ _ _)
            ∙ lookup-remove_self (hash_of P ld) h.links)
  ]

  -- After add_linkdef, whether it returned or failed, a second add_linkdef of any definition whose
  -- actor, contract and link name make the same text when joined returns success, changes nothing
  -- and announces nothing to any provider.
  pub add_linkdef_skips :
      (ld ld' : LinkDefinition) (h : Host)
      → format (ld'.actor_id ∷ ld'.contract_id ∷ ld'.link_name ∷ [])
        ≡ format (ld.actor_id ∷ ld.contract_id ∷ ld.link_name ∷ [])
      → add_linkdef L P ld' (add_linkdef L P ld h).1 ≡ (ok tt, (add_linkdef L P ld h).1)
  unfolding linkdef_hash
  add_linkdef_skips ld ld' h same =
      let (d, e) = add_linkdef-stores ld h in
      add_linkdef_known ld' d (add_linkdef L P ld h).1
        (ap (λ x. lookup (P.sha256_hex x) (add_linkdef L P ld h).1.links) same ∙ e)

  -- After delete_linkdef, whether it returned or failed, a second one for the same actor, contract
  -- and link name fails and changes nothing.
  pub delete_linkdef_retry :
      (ld : LinkDefinition) (h : Host)
      → delete_linkdef L P ld (delete_linkdef L P ld h).1
        ≡ (err (anyhow "attempt to remove a non-exitent link"), (delete_linkdef L P ld h).1)
  delete_linkdef_retry ld h =
      delete_linkdef_unknown ld (delete_linkdef L P ld h).1 (delete_linkdef-removes ld h)
