-- ===== src/Handler/Capability.antt =====
-- `ensure_actor_capability` of handler.rs.
use kasmcloud.Prelude.{
  String, ◌≡◌, refl, inl, inr, ◌↔◌, true, Option, none, some, List, [], ◌∷◌, Result, ok, err, Error,
  anyhow, format, is_empty, any, ◌==◌, if◌then◌else◌, arith, eq_iff, Bool-cases, Option-cases,
}
use kasmcloud.External.{ActorMetadata}

-- `ensure!(caps.iter().any(..))`
ensure_listed : List String → String → Result Error (Unit {0})
ensure_listed caps contract_id =
    if any (λ cap. cap == contract_id) caps
    then ok tt
    else err (anyhow (format ("actor does not have capability claim `" ∷ contract_id ∷ "`" ∷ [])))

ensure_claimed : Option ActorMetadata → String → Result Error (Unit {0})
ensure_claimed none contract_id = err (anyhow "actor missing capability claims, denying invocation")
ensure_claimed (some m) contract_id = elim m.caps [
  | none ↦ err (anyhow "actor missing capability claims, denying invocation")
  | some caps ↦ ensure_listed caps contract_id
]

unfoldable pub ensure_actor_capability : Option ActorMetadata → String → Result Error (Unit {0})
unfolding ensure_claimed ensure_listed
ensure_actor_capability metadata contract_id =
    if is_empty contract_id then ok tt else ensure_claimed metadata contract_id

-- Who may call a contract: anybody the empty one, and else an actor whose claims name it.
pub data Holds (x : String) : List String → Type 0 where
  here : {xs : List String} {y : String} → y ≡ x → Holds x (y ∷ xs)
  there : {xs : List String} {y : String} → Holds x xs → Holds x (y ∷ xs)

pub data MayCall (metadata : Option ActorMetadata) (contract_id : String) : Type 0 where
  unrestricted : contract_id ≡ "" → MayCall metadata contract_id
  claimed :
      (m : ActorMetadata) (caps : List String)
      → metadata ≡ some m
      → m.caps ≡ some caps
      → Holds contract_id caps
      → MayCall metadata contract_id

any-Holds : (x : String) (caps : List String) → any (λ cap. cap == x) caps ≡ true → Holds x caps
any-Holds x [] h = cc
any-Holds x (y ∷ caps) h = elim (Bool-cases (y == x)) [
  | inl e ↦ here ((eq_iff y x).0 e)
  | inr e ↦ there (any-Holds x caps (rw e at h))
]

Holds-any : {x : String} {caps : List String} → Holds x caps → any (λ cap. cap == x) caps ≡ true
Holds-any {x} (here {y = y} e) = rw ((eq_iff y x).1 e)
Holds-any {x} (there {xs = xs} {y = y} h) = ground (arith, Holds-any {x = x} {caps = xs} h)

ensure_claimed-MayCall :
    (metadata : Option ActorMetadata) (contract_id : String)
    → ensure_claimed metadata contract_id ≡ ok tt
    → MayCall metadata contract_id
unfolding ensure_claimed ensure_listed
ensure_claimed-MayCall none c h = cc
ensure_claimed-MayCall (some m) c h = elim (Option-cases m.caps) [
  | inl e ↦ ground arith
  | inr (caps, e) ↦ claimed m caps refl e (any-Holds c caps (ground arith))
]

allowed-MayCall :
    (metadata : Option ActorMetadata) (contract_id : String)
    → ensure_actor_capability metadata contract_id ≡ ok tt
    → MayCall metadata contract_id
unfolding ensure_actor_capability
allowed-MayCall metadata c h = elim (Bool-cases (c == "")) [
  | inl e ↦ unrestricted ((eq_iff c "").0 e)
  | inr e ↦ ensure_claimed-MayCall metadata c (rw e at h)
]

MayCall-allowed :
    (metadata : Option ActorMetadata) (contract_id : String)
    → MayCall metadata contract_id
    → ensure_actor_capability metadata contract_id ≡ ok tt
unfolding ensure_actor_capability
MayCall-allowed metadata c (unrestricted e) = ground (arith, eq_iff c "")
MayCall-allowed metadata c (claimed m caps e f h) = ground (arith, Holds-any h)

-- The capability check passes exactly for who may call the contract: for the empty contract
-- anybody, for any other an actor whose claims have a capability list that names it.
pub ensure_actor_capability_iff :
    (metadata : Option ActorMetadata) (contract_id : String)
    → (ensure_actor_capability metadata contract_id ≡ ok tt) ↔ MayCall metadata contract_id
ensure_actor_capability_iff metadata c = (allowed-MayCall metadata c, MayCall-allowed metadata c)
