-- ===== src/Controller/Links/Accord.antt =====
-- The links that the controller counts against the definitions that the host stores.
use kasmcloud.Prelude.{String, ◌≡◌, ◌≢◌, refl, none, some, List, [], ok}
use kasmcloud.Map.{Map, lookup, insert, remove}
use kasmcloud.External.{Bytes, LinkDefinition}
use kasmcloud.External.Effects.{Trace}
use kasmcloud.External.Lattice.{Lattice}
use kasmcloud.External.Platform.{Platform}
use kasmcloud.Host.{Host}
use kasmcloud.Host.Links.{hash_of, announce, store_link, drop_link, add_linkdef, delete_linkdef}
use kasmcloud.Host.Links.Faults.{announce-links}
use kasmcloud.Controller.Links.{id_of}

-- Providers can be told of links at any time.
pub record Announces (L : Lattice) (P : Platform) : Type 0 where
  pub encodes : (ld : LinkDefinition) → (b : Bytes) × (P.encode_linkdef ld ≡ ok b)
  pub publishes : (topic : String) (b : Bytes) (t : Trace) → L.publish topic b t ≡ ok tt

module _ (L : Lattice) (P : Platform) (announces : Announces L P) where
  announce-ok :
      (ld : LinkDefinition) (event failure : String) (h : Host)
      → (announce L P ld event failure h).0 ≡ ok tt
  unfolding announce
  announce-ok ld event failure h =
      let (b, e) = announces.encodes ld in rw (e, announce, announces.publishes _ b h.trace) refl

  -- a definition under a free hash is taken, and one that is there is dropped
  pub add_linkdef-takes :
      (ld : LinkDefinition) (h : Host)
      → lookup (hash_of P ld) h.links ≡ none
      → ((add_linkdef L P ld h).0 ≡ ok tt)
        × ((add_linkdef L P ld h).1.links ≡ insert (hash_of P ld) ld h.links)
  unfolding add_linkdef store_link
  add_linkdef-takes ld h fresh = (
    rw (fresh, add_linkdef) (announce-ok ld _ _ _),
    rw (fresh, add_linkdef) (announce-links L P ld _ _ (store_link L P ld h)),
  )

  pub delete_linkdef-drops :
      (ld d : LinkDefinition) (h : Host)
      → lookup (hash_of P ld) h.links ≡ some d
      → ((delete_linkdef L P ld h).0 ≡ ok tt)
        × ((delete_linkdef L P ld h).1.links ≡ remove (hash_of P ld) h.links)
  unfolding delete_linkdef drop_link
  delete_linkdef-drops ld d h there = (
    rw (there, delete_linkdef) (announce-ok d _ _ _),
    rw (there, delete_linkdef) (announce-links L P d _ _ (drop_link L P (hash_of P ld) d h)),
  )

abbrev pub Held : Type 0
Held = Map (LinkDefinition × List String)

module _ (P : Platform) (Q : LinkDefinition → Type 0) where
  -- what stands behind an entry
  pub record Backed (stored : Map LinkDefinition) (id : String) (ld : LinkDefinition)
      (names : List String) : Type 0 where
    pub is_stored : lookup (hash_of P ld) stored ≡ some ld
    pub identified : id_of ld ≡ id
    pub told_apart : Q ld
    pub some_link : names ≢ []

  -- what counts a definition
  pub record Counted (held : Held) (key : String) (d : LinkDefinition) : Type 0 where
    pub names : List String
    pub entry : lookup (id_of d) held ≡ some (d, names)
    pub hashed : hash_of P d ≡ key

  -- the entries of the controller against the definitions of the host
  pub record InAccord (stored : Map LinkDefinition) (held : Held) : Type 0 where
    pub backed :
        (id : String) (ld : LinkDefinition) (names : List String)
        → lookup id held ≡ some (ld, names)
        → Backed stored id ld names
    pub counted :
        (key : String) (d : LinkDefinition) → lookup key stored ≡ some d → Counted held key d
