-- ===== src/Host/Actors/Rollout.antt =====
-- What a reconciliation with a new image does to an actor that is running.
use kasmcloud.Prelude.{
  ℕ, zero, suc, ◌-◌, String, ◌≡◌, refl, inl, inr, some, ◌++◌, ok, arith, length, drop, leb,
  Result-cases, Bool-cases, ◌>>=◌, pure, bind-eq-ok,
}
use kasmcloud.Map.{lookup}
use kasmcloud.External.{Claims, ActorMetadata}
use kasmcloud.External.Platform.{Platform}
use kasmcloud.Host.{Host, Actor, ActorGroup}
use kasmcloud.Host.Actors.{
  find_actor, register_key, ensure_group, instantiate_actor, scale_up, scale_down, resize,
  scale_actor, reconcile_actor,
}
use kasmcloud.Host.Actors.Cases.{prepared, ensure_group-group, reconcile_actor_cases}
use kasmcloud.Host.Actors.Scaling.{find_actor-set_actor, actors-instantiate_actor}

-- The actor is still there, as it was but for its instances.
pub record Kept (key name : String) (a : Actor) (h : Host) : Type 0 where
  pub now : Actor
  pub found : find_actor key name h.actors ≡ some now
  pub image_ref : now.image_ref ≡ a.image_ref
  pub handler : now.handler ≡ a.handler
  pub pool_size : now.pool_size ≡ a.pool_size

found-prepared :
    (key name : String) (a : Actor) (h : Host)
    → find_actor key name h.actors ≡ some a
    → find_actor key name (prepared name key h).actors ≡ some a
unfolding ensure_group register_key
found-prepared key name a h e = ground arith

module _ (P : Platform) (claims : Claims ActorMetadata) (name : String) (a : Actor) (h : Host)
    (found : find_actor claims.subject name h.actors ≡ some a) (g : ActorGroup)
    (there : lookup claims.subject h.actors ≡ some g) where
  scale_up-Kept : (n : ℕ) → Kept claims.subject name a (scale_up P claims name a n h).1
  unfolding scale_up
  scale_up-Kept zero = record {
    now = a;
    found = found;
    image_ref = refl;
    handler = refl;
    pool_size = refl;
  }
  scale_up-Kept (suc n) = elim (Result-cases (instantiate_actor P claims (suc n) a.handler h).0) [
    | inl (e, p) ↦ rw p (record {
      now = a;
      found = rw (actors-instantiate_actor P claims (suc n) a.handler h) found;
      image_ref = refl;
      handler = refl;
      pool_size = refl;
    })
    | inr (is, p) ↦
        rw (p, actors-instantiate_actor P claims (suc n) a.handler h)
          (record {
            now = record a { instances = a.instances ++ is };
            found = find_actor-set_actor claims.subject name _ h.actors g there;
            image_ref = refl;
            handler = refl;
            pool_size = refl;
          })
  ]

  resize-Kept : (n : ℕ) → Kept claims.subject name a (resize P claims name a n h).1
  unfolding resize scale_down
  resize-Kept n = elim (Bool-cases (leb (length a.instances) n)) [
    | inl fewer ↦ rw fewer (scale_up-Kept (n - length a.instances))
    | inr more ↦ rw more (record {
      now = record a { instances = drop (length a.instances - n) a.instances };
      found = find_actor-set_actor claims.subject name _ h.actors g there;
      image_ref = refl;
      handler = refl;
      pool_size = refl;
    })
  ]

  scale_actor-Kept :
      (actor_ref : String) (n : ℕ)
      → Kept claims.subject name a (scale_actor P claims name actor_ref n h).1
  unfolding scale_actor
  scale_actor-Kept actor_ref n = rw (found, scale_actor) (resize-Kept n)

-- A reconciliation that returns claims, of an actor that is held under their public key already,
-- keeps its image, its handler and the size of its pool, whatever image is asked for.
pub reconcile_actor-Kept :
    (P : Platform) (name actor_ref : String) (n : ℕ) (h : Host) (claims : Claims ActorMetadata)
    (a : Actor)
    → (reconcile_actor P name actor_ref n h).0 ≡ ok claims
    → find_actor claims.subject name h.actors ≡ some a
    → Kept claims.subject name a (reconcile_actor P name actor_ref n h).1
reconcile_actor-Kept P name actor_ref n h claims a e found =
    elim (reconcile_actor_cases P name actor_ref n h) [
      | inl (x, p) ↦ absurd (ground arith)
      | inr (c, _, p) ↦ rw p (scaled c (rw p at e))
    ]
  where
    scaled :
        (c : Claims ActorMetadata)
        → ((scale_actor P c name actor_ref n >>= λ _. pure c) (prepared name c.subject h)).0
          ≡ ok claims
        → Kept claims.subject name a
            ((scale_actor P c name actor_ref n >>= λ _. pure c) (prepared name c.subject h)).1
    scaled c q =
        let (g, there) = ensure_group-group c.subject (register_key name c.subject h) in
        let (u, done, same) = bind-eq-ok (scale_actor P c name actor_ref n) (λ _. pure c) _ q in
        let same_claims : c ≡ claims = ground (arith, same) in
        rw (done, ← same_claims)
          (scale_actor-Kept P c name a _ (found-prepared c.subject name a h (rw same_claims found))
            g there actor_ref n)
