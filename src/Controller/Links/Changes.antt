-- ===== src/Controller/Links/Changes.antt =====
-- What a new, a joined and a dropped definition make of the tables of the controller and the host.
use kasmcloud.Prelude.{
  String, ◌≡◌, ◌≢◌, refl, sym, ap, ◌∙◌, ◌↔◌, inl, inr, none, some, List, [], ◌∷◌, ◌==◌, eq_iff,
  Option-cases, Bool-cases,
}
use mathlib.Core.Option.{some-injective}
use kasmcloud.Map.{Map, lookup, insert, remove}
use kasmcloud.Map.Laws.{lookup-insert, lookup-insert_self, lookup-insert_ne, lookup-remove_ne}
use kasmcloud.External.{LinkDefinition}
use kasmcloud.External.Platform.{Platform}
use kasmcloud.Host.Links.{hash_of}
use kasmcloud.Controller.Links.{id_of}
use kasmcloud.Map.Cases.{insert_cases, remove_cases}
use kasmcloud.Controller.Links.Accord.{Held, InAccord}

same_entry :
    (i j : String) (x d : LinkDefinition) (ns ms : List String)
    (m : Map (LinkDefinition × List String))
    → lookup i m ≡ some (x, ns)
    → lookup j m ≡ some (d, ms)
    → i ≡ j
    → x ≡ d
same_entry i j x d ns ms m e f s =
    let t : some (x, ns) ≡ some (d, ms) = sym e ∙ ap (λ k. lookup k m) s ∙ f in
    ap (λ y. y.0) (some-injective _ _ t)

module _ (P : Platform) (Q : LinkDefinition → Type 0)
    (same : (ld d : LinkDefinition)
      → Q ld
      → Q d
      → (hash_of P ld ≡ hash_of P d) ↔ (id_of ld ≡ id_of d))
    (stored : Map LinkDefinition) (held : Held) (v : InAccord P Q stored held) where
  -- a definition with a free id has a free hash
  pub free_hash :
      (ld : LinkDefinition)
      → Q ld
      → lookup (id_of ld) held ≡ none
      → lookup (hash_of P ld) stored ≡ none
  free_hash ld q free = elim (Option-cases (lookup (hash_of P ld) stored)) [
    | inl e ↦ e
    | inr (d, e) ↦
        let c = v.counted (hash_of P ld) d e in
        let b = v.backed (id_of d) d c.names c.entry in
        let i : id_of d ≡ id_of ld = (same d ld b.told_apart q).0 c.hashed in
        absurd (let e' : none ≡ some (d, c.names) = sym free ∙ (rw i at c.entry) in cc)
  ]

  apart_of : (key : String) (d : LinkDefinition) → lookup key stored ≡ some d → Q d
  apart_of key d e = let c = v.counted key d e in (v.backed (id_of d) d c.names c.entry).told_apart

  pub grown :
      (ld : LinkDefinition) (name : String)
      → Q ld
      → lookup (id_of ld) held ≡ none
      → InAccord P Q (insert (hash_of P ld) ld stored) (insert (id_of ld) (ld, name ∷ []) held)
  grown ld name q free = record {
    backed = λ id x names e. elim (insert_cases (id_of ld) id (ld, name ∷ []) (x, names) held e) [
      | inl (i, s) ↦
          let t : ld ≡ x = ap (λ y. y.0) s in
          let u : name ∷ [] ≡ names = ap (λ y. y.1) s in
          record {
            is_stored = rw (sym t) (lookup-insert_self (hash_of P ld) ld stored);
            identified = rw (sym t) i;
            told_apart = rw (sym t) q;
            some_link = λ m. cc;
          }
      | inr (n, e') ↦
          let b = v.backed id x names e' in
          record {
            is_stored =
                lookup-insert_ne (hash_of P ld) (hash_of P x) ld stored
                  (λ m. n ((same ld x q b.told_apart).0 m ∙ b.identified))
                ∙ b.is_stored;
            identified = b.identified;
            told_apart = b.told_apart;
            some_link = b.some_link;
          }
    ];
    counted = λ key d e. elim (insert_cases (hash_of P ld) key ld d stored e) [
      | inl (i, s) ↦ record {
        names = name ∷ [];
        entry = rw (sym s) (lookup-insert_self (id_of ld) (ld, name ∷ []) held);
        hashed = rw (sym s) i;
      }
      | inr (n, e') ↦
          let c = v.counted key d e' in
          record {
            names = c.names;
            entry =
                lookup-insert_ne (id_of ld) (id_of d) (ld, name ∷ []) held
                  (λ m. n ((same ld d q (apart_of key d e')).1 m ∙ c.hashed))
                ∙ c.entry;
            hashed = c.hashed;
          }
    ];
  }

  module _ (id : String) (x : LinkDefinition) (names : List String)
      (there : lookup id held ≡ some (x, names)) where
    pub recounted :
        (names' : List String) → names' ≢ [] → InAccord P Q stored (insert id (x, names') held)
    recounted names' some_left = record {
      backed = λ j y ns e. elim (insert_cases id j (x, names') (y, ns) held e) [
        | inl (i, s) ↦
            let b = v.backed id x names there in
            let t : x ≡ y = ap (λ z. z.0) s in
            let u : names' ≡ ns = ap (λ z. z.1) s in
            record {
              is_stored = rw (sym t) b.is_stored;
              identified = rw (sym t) (b.identified ∙ i);
              told_apart = rw (sym t) b.told_apart;
              some_link = λ m. some_left (u ∙ m);
            }
        | inr (_, e') ↦ v.backed j y ns e'
      ];
      counted = λ key d e.
          let c = v.counted key d e in
          elim (Bool-cases (id == id_of d)) [
            | inl here ↦
                let t : x ≡ d =
                  same_entry id (id_of d) x d names c.names held there c.entry
                    ((eq_iff id (id_of d)).0 here) in
                record {
                  names = names';
                  entry = rw (lookup-insert id (id_of d) (x, names') held, here, t) refl;
                  hashed = c.hashed;
                }
            | inr away ↦ record {
              names = c.names;
              entry = rw (lookup-insert id (id_of d) (x, names') held, away) c.entry;
              hashed = c.hashed;
            }
          ];
    }

    pub shrunk : InAccord P Q (remove (hash_of P x) stored) (remove id held)
    shrunk = record {
      backed = λ j y ns e.
          let (n, e') = remove_cases id j (y, ns) held e in
          let b = v.backed j y ns e' in
          let bx = v.backed id x names there in
          record {
            is_stored =
                lookup-remove_ne (hash_of P x) (hash_of P y) stored (λ m.
                  n (sym bx.identified ∙ (same x y bx.told_apart b.told_apart).0 m ∙ b.identified))
                ∙ b.is_stored;
            identified = b.identified;
            told_apart = b.told_apart;
            some_link = b.some_link;
          };
      counted = λ key d e.
          let (n, e') = remove_cases (hash_of P x) key d stored e in
          let c = v.counted key d e' in
          record {
            names = c.names;
            entry =
                lookup-remove_ne id (id_of d) held (λ m. n (
                  ap (hash_of P) (same_entry id (id_of d) x d names c.names held there c.entry m)
                  ∙ c.hashed))
                ∙ c.entry;
            hashed = c.hashed;
          };
    }
