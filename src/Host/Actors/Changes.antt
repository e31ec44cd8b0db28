-- ===== src/Host/Actors/Changes.antt =====
-- All that scaling an actor, successful or not, changes of a host: that actor, and the history.
use kasmcloud.Prelude.{
  ℕ, zero, suc, ◌-◌, String, ◌≡◌, refl, ◌⊎◌, inl, inr, Option, none, some, Result, Error, arith,
  Result-cases, Option-cases, Bool-cases, ◌>>=◌, pure, length, leb, ◌==◌, eq_iff, if◌then◌else◌,
}
use kasmcloud.Map.{Map, lookup, insert}
use kasmcloud.Map.Laws.{lookup-insert}
use kasmcloud.External.{Claims, ActorMetadata}
use kasmcloud.External.Platform.{Platform}
use kasmcloud.Host.{Host, Actor, ActorGroup}
use kasmcloud.Host.Actors.{
  find_actor, set_actor, new_handler, instantiate_actor, start_actor, start_missing, scale_up,
  scale_down, resize, scale_actor,
}
use kasmcloud.Host.Actors.Scaling.{actors-start_actor}

-- The host's tables but for the actors, which change at one name of one group at most.
pub record Adjusts (subject name : String) (h h' : Host) : Type 0 where
  pub keys : h'.actor_keys ≡ h.actor_keys
  pub links : h'.links ≡ h.links
  pub providers : h'.providers ≡ h.providers
  pub actors :
      (h'.actors ≡ h.actors) ⊎ ((a : Actor) × (h'.actors ≡ set_actor subject name a h.actors))

abbrev pub with_actor : String → Actor → Option ActorGroup → Option ActorGroup
with_actor name a none = none
with_actor name a (some g) = some (record g { actors = insert name a g.actors })

pub lookup-set_actor :
    (subject name k : String) (a : Actor) (actors : Map ActorGroup)
    → lookup k (set_actor subject name a actors)
      ≡ (if subject == k then with_actor name a (lookup k actors) else lookup k actors)
unfolding set_actor
lookup-set_actor subject name k a actors = elim (Option-cases (lookup subject actors)) [
  | inl e ↦ ground (arith, eq_iff subject k)
  | inr (g, e) ↦ ground (
    arith,
    eq_iff subject k,
    lookup-insert subject k (record g { actors = insert name a g.actors }) actors,
  )
]

module _ (P : Platform) (claims : Claims ActorMetadata) (name : String) where
  abbrev Adjusted : Host → Result Error (Unit {0}) × Host → Type 0
  Adjusted h r = Adjusts claims.subject name h r.1

  start_actor-rest :
      (actor_ref : String) (n : ℕ) (h : Host)
      → let h' = (start_actor P (some claims) actor_ref n h).1 in
        (h'.actor_keys ≡ h.actor_keys) × (h'.links ≡ h.links) × (h'.providers ≡ h.providers)
  unfolding start_actor instantiate_actor
  start_actor-rest actor_ref n h =
      elim (Result-cases (instantiate_actor P claims n (new_handler h claims) h).0) [
        | inl (e, p) ↦ rw p (refl, refl, refl)
        | inr (is, p) ↦ rw p (refl, refl, refl)
      ]

  start_missing-Adjusts :
      (actor_ref : String) (n : ℕ) (h : Host)
      → Adjusted h (start_missing P claims name actor_ref n h)
  unfolding start_missing
  start_missing-Adjusts actor_ref zero h = record {
    keys = refl;
    links = refl;
    providers = refl;
    actors = inl refl;
  }
  start_missing-Adjusts actor_ref (suc n) h =
      let (k, l, v) = start_actor-rest actor_ref (suc n) h in
      let same = actors-start_actor P (some claims) actor_ref (suc n) h in
      elim (Result-cases (start_actor P (some claims) actor_ref (suc n) h).0) [
        | inl (e, p) ↦ rw p (record { keys = k; links = l; providers = v; actors = inl same })
        | inr (a, p) ↦
            rw p (record { keys = k; links = l; providers = v; actors = inr (a, rw same) })
      ]

  scale_up-Adjusts :
      (actor : Actor) (n : ℕ) (h : Host) → Adjusted h (scale_up P claims name actor n h)
  unfolding scale_up instantiate_actor
  scale_up-Adjusts actor zero h = record {
    keys = refl;
    links = refl;
    providers = refl;
    actors = inl refl;
  }
  scale_up-Adjusts actor (suc n) h =
      elim (Result-cases (instantiate_actor P claims (suc n) actor.handler h).0) [
        | inl (e, p) ↦
            rw p (record { keys = refl; links = refl; providers = refl; actors = inl refl })
        | inr (is, p) ↦
            rw p (record { keys = refl; links = refl; providers = refl; actors = inr (_, refl) })
      ]

  resize-Adjusts : (actor : Actor) (n : ℕ) (h : Host) → Adjusted h (resize P claims name actor n h)
  unfolding resize scale_down
  resize-Adjusts actor n h = elim (Bool-cases (leb (length actor.instances) n)) [
    | inl fewer ↦ rw fewer (scale_up-Adjusts actor (n - length actor.instances) h)
    | inr more ↦
        rw more (record { keys = refl; links = refl; providers = refl; actors = inr (_, refl) })
  ]

  pub scale_actor-Adjusts :
      (actor_ref : String) (n : ℕ) (h : Host)
      → Adjusts claims.subject name h (scale_actor P claims name actor_ref n h).1
  unfolding scale_actor
  scale_actor-Adjusts actor_ref n h =
      elim (Option-cases (find_actor claims.subject name h.actors)) [
        | inl missing ↦ rw (missing, scale_actor) (start_missing-Adjusts actor_ref n h)
        | inr (actor, found) ↦ rw (found, scale_actor) (resize-Adjusts actor n h)
      ]

  pub finished-Adjusts :
      (actor_ref : String) (n : ℕ) (h : Host)
      → Adjusts claims.subject name h
          ((scale_actor P claims name actor_ref n >>= λ _. pure claims) h).1
  finished-Adjusts actor_ref n h = elim (Result-cases (scale_actor P claims name actor_ref n h).0) [
    | inl (e, p) ↦ rw p (scale_actor-Adjusts actor_ref n h)
    | inr (u, p) ↦ rw p (scale_actor-Adjusts actor_ref n h)
  ]
