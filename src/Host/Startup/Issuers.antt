-- ===== src/Host/Startup/Issuers.antt =====
-- The issuers that a new host trusts, and the kinds of its keys.
use kasmcloud.Prelude.{
  String, ◌≡◌, Bool, true, Option, none, some, List, [], ◌∷◌, ◌++◌, Result, ok, err, Error, inl,
  inr, arith, any, ◌==◌, eq_refl, Bool-cases,
}
use kasmcloud.External.{KeyPair, KeyPairType}
use kasmcloud.Host.Startup.{key_or_new, issuers_with, try_join}

abbrev pub trusts : List String → String → Bool
trusts issuers issuer = any (λ i. i == issuer) issuers

trusts-++ :
    (issuers : List String) (own issuer : String)
    → trusts issuers issuer ≡ true
    → trusts (issuers ++ own ∷ []) issuer ≡ true
trusts-++ [] own issuer h = absurd (cc)
trusts-++ (i ∷ is) own issuer h = ground (arith, trusts-++ is own issuer)

trusts_own : (issuers : List String) (own : String) → trusts (issuers ++ own ∷ []) own ≡ true
trusts_own [] own = ground (arith, eq_refl own)
trusts_own (i ∷ is) own = ground (arith, trusts_own is own)

pub issuers_with_own :
    (issuers : List String) (own : String) → trusts (issuers_with own issuers) own ≡ true
issuers_with_own issuers own = elim (Bool-cases (trusts issuers own)) [
  | inl e ↦ rw (e, issuers_with) e
  | inr e ↦ rw (e, issuers_with) (trusts_own issuers own)
]

pub issuers_with_kept :
    (issuers : List String) (own issuer : String)
    → trusts issuers issuer ≡ true
    → trusts (issuers_with own issuers) issuer ≡ true
issuers_with_kept issuers own issuer h = elim (Bool-cases (trusts issuers own)) [
  | inl e ↦ rw (e, issuers_with) h
  | inr e ↦ rw (e, issuers_with) (trusts-++ issuers own issuer h)
]

pub key_or_new_kind :
    (wanted : KeyPairType → Bool) (condition : KeyPairType → String) (fresh : KeyPair)
    (given : Option KeyPair) {k : KeyPair}
    → wanted fresh.key_pair_type ≡ true
    → key_or_new wanted condition fresh given ≡ ok k
    → wanted k.key_pair_type ≡ true
key_or_new_kind wanted condition fresh none w h = cc
key_or_new_kind wanted condition fresh (some key) w h = ground arith

pub try_join-ok :
    {A B : Type 0} (first : Bool) (r : Result Error A) (s : Result Error B) {a : A} {b : B}
    → try_join first r s ≡ ok (a, b)
    → (r ≡ ok a) × (s ≡ ok b)
try_join-ok first (ok a) (ok b) h = (cc, cc)
try_join-ok first (ok a) (err e) h = absurd (cc)
try_join-ok first (err e) (ok b) h = absurd (cc)
try_join-ok first (err e) (err e') h = absurd (cc)
