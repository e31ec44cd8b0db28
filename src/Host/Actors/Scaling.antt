-- ===== src/Host/Actors/Scaling.antt =====
-- A reconciliation that returns has brought the actor to the number of replicas asked for.
use kasmcloud.Prelude.{
  ℕ, zero, suc, ◌+◌, ◌-◌, String, ◌≡◌, refl, ap, ◌∙◌, Option, none, some, List, ◌++◌, ok, arith,
  length, drop, leb, length-append, length-drop, Result-cases, Option-cases, Bool-cases, inl, inr,
  ◌>>=◌, with_context, bind-eq-ok, context-eq-ok, pure,
}
use kasmcloud.Map.{Map, lookup, insert}
use kasmcloud.Map.Laws.{lookup-insert_self}
use kasmcloud.External.{Claims, ActorMetadata}
use kasmcloud.External.Effects.{Trace}
use kasmcloud.External.Platform.{Platform}
use kasmcloud.Handler.{Handler}
use kasmcloud.Actor.{ActorInstance}
use kasmcloud.Host.{Host, Actor, ActorGroup}
use kasmcloud.Host.Actors.Cases.{prepared, ensure_group-group, reconcile_actor_cases}
use kasmcloud.Host.Actors.{
  find_actor, set_actor, new_handler, register_key, instantiate_one, instantiate_many,
  instantiate_actor, start_actor, start_missing, scale_up, scale_down, resize, scale_actor,
  reconcile_actor,
}

-- How many instances of the named actor the host keeps under a public key.
abbrev pub instances_of : Option Actor → ℕ
instances_of none = 0
instances_of (some actor) = length actor.instances

abbrev pub replicas : String → String → Host → ℕ
replicas key name h = instances_of (find_actor key name h.actors)

pub find_actor-set_actor :
    (key name : String) (a : Actor) (actors : Map ActorGroup) (g : ActorGroup)
    → lookup key actors ≡ some g
    → find_actor key name (set_actor key name a actors) ≡ some a
unfolding set_actor
find_actor-set_actor key name a actors g e =
    rw (e, set_actor, lookup-insert_self key (record g { actors = insert name a g.actors }) actors)
      (lookup-insert_self name a g.actors)

module _ (P : Platform) where
  length-instantiate_many :
      (n : ℕ) (topic : String) (handler : Handler) (issuers : List String) (t : Trace)
      (is : List ActorInstance)
      → (instantiate_many P n topic handler issuers t).0 ≡ ok is
      → length is ≡ n
  unfolding instantiate_many
  length-instantiate_many zero topic handler issuers t is e = ground arith
  length-instantiate_many (suc n) topic handler issuers t is e =
      let (i, p, q) = bind-eq-ok (instantiate_one P topic handler issuers) _ t e in
      let (rest, r, s) = bind-eq-ok (instantiate_many P n topic handler issuers) _ _ q in
      ground (arith, length-instantiate_many n topic handler issuers _ rest r)

  pub length-instantiate_actor :
      (claims : Claims ActorMetadata) (n : ℕ) (handler : Handler) (h : Host)
      (is : List ActorInstance)
      → (instantiate_actor P claims n handler h).0 ≡ ok is
      → length is ≡ n
  unfolding instantiate_actor
  length-instantiate_actor claims n handler h is e =
      length-instantiate_many n _ handler h.cluster_issuers h.trace is
        (context-eq-ok "failed to instantiate actor" _ e)

  pub actors-instantiate_actor :
      (claims : Claims ActorMetadata) (n : ℕ) (handler : Handler) (h : Host)
      → (instantiate_actor P claims n handler h).1.actors ≡ h.actors
  unfolding instantiate_actor
  actors-instantiate_actor claims n handler h = refl

  pub length-start_actor :
      (claims : Option (Claims ActorMetadata)) (actor_ref : String) (n : ℕ) (h : Host) (a : Actor)
      → (start_actor P claims actor_ref n h).0 ≡ ok a
      → length a.instances ≡ n
  unfolding start_actor
  length-start_actor none actor_ref n h a e = absurd (cc)
  length-start_actor (some claims) actor_ref n h a e =
      let (is, p, q) =
        bind-eq-ok
          (with_context "failed to instantiate actor"
            (instantiate_actor P claims n (new_handler h claims)))
          _ h e in
      ground (
        arith,
        length-instantiate_actor claims n _ h is (context-eq-ok "failed to instantiate actor" _ p),
      )

  pub actors-start_actor :
      (claims : Option (Claims ActorMetadata)) (actor_ref : String) (n : ℕ) (h : Host)
      → (start_actor P claims actor_ref n h).1.actors ≡ h.actors
  unfolding start_actor
  actors-start_actor none actor_ref n h = refl
  actors-start_actor (some claims) actor_ref n h =
      elim (Result-cases (instantiate_actor P claims n (new_handler h claims) h).0) [
        | inl (e, p) ↦ rw p (actors-instantiate_actor claims n (new_handler h claims) h)
        | inr (is, p) ↦ rw p (actors-instantiate_actor claims n (new_handler h claims) h)
      ]

  module _ (claims : Claims ActorMetadata) (name : String) where
    start_missing-replicas :
        (actor_ref : String) (n : ℕ) (h : Host) (g : ActorGroup)
        → lookup claims.subject h.actors ≡ some g
        → find_actor claims.subject name h.actors ≡ none
        → (start_missing P claims name actor_ref n h).0 ≡ ok tt
        → replicas claims.subject name (start_missing P claims name actor_ref n h).1 ≡ n
    unfolding start_missing
    start_missing-replicas actor_ref zero h g there missing e = rw missing
    start_missing-replicas actor_ref (suc n) h g there missing e =
        elim (Result-cases (start_actor P (some claims) actor_ref (suc n) h).0) [
          | inl (x, p) ↦ absurd (ground arith)
          | inr (a, p) ↦
              rw
                (
                  p,
                  actors-start_actor (some claims) actor_ref (suc n) h,
                  find_actor-set_actor claims.subject name a h.actors g there,
                )
                (length-start_actor (some claims) actor_ref (suc n) h a p)
        ]

    scale_up-replicas :
        (actor : Actor) (n : ℕ) (h : Host) (g : ActorGroup)
        → lookup claims.subject h.actors ≡ some g
        → find_actor claims.subject name h.actors ≡ some actor
        → (scale_up P claims name actor n h).0 ≡ ok tt
        → replicas claims.subject name (scale_up P claims name actor n h).1
          ≡ length actor.instances + n
    unfolding scale_up
    scale_up-replicas actor zero h g there found e = rw found (omega arith)
    scale_up-replicas actor (suc n) h g there found e =
        elim (Result-cases (instantiate_actor P claims (suc n) actor.handler h).0) [
          | inl (x, p) ↦ absurd (ground arith)
          | inr (is, p) ↦
              rw
                (
                  p,
                  actors-instantiate_actor claims (suc n) actor.handler h,
                  find_actor-set_actor claims.subject name
                      (record actor { instances = actor.instances ++ is }) h.actors g there,
                )
                (length-append actor.instances is
                  ∙ ap (λ x. length actor.instances + x)
                      (length-instantiate_actor claims (suc n) actor.handler h is p))
        ]

    scale_down-replicas :
        (actor : Actor) (n : ℕ) (h : Host) (g : ActorGroup)
        → lookup claims.subject h.actors ≡ some g
        → replicas claims.subject name (scale_down P claims name actor n h).1
          ≡ length actor.instances - n
    unfolding scale_down
    scale_down-replicas actor n h g there =
        rw
          (find_actor-set_actor claims.subject name
            (record actor { instances = drop n actor.instances }) h.actors g there)
          (length-drop n actor.instances)

    resize-replicas :
        (actor : Actor) (n : ℕ) (h : Host) (g : ActorGroup)
        → lookup claims.subject h.actors ≡ some g
        → find_actor claims.subject name h.actors ≡ some actor
        → (resize P claims name actor n h).0 ≡ ok tt
        → replicas claims.subject name (resize P claims name actor n h).1 ≡ n
    unfolding resize
    resize-replicas actor n h g there found e = elim (Bool-cases (leb (length actor.instances) n)) [
      | inl fewer ↦ rw fewer (
          scale_up-replicas actor (n - length actor.instances) h g there found (rw fewer at e)
          ∙ ground arith)
      | inr more ↦
          rw more (scale_down-replicas actor (length actor.instances - n) h g there ∙ ground arith)
    ]

    scale_actor-replicas :
        (actor_ref : String) (n : ℕ) (h : Host) (g : ActorGroup)
        → lookup claims.subject h.actors ≡ some g
        → (scale_actor P claims name actor_ref n h).0 ≡ ok tt
        → replicas claims.subject name (scale_actor P claims name actor_ref n h).1 ≡ n
    unfolding scale_actor
    scale_actor-replicas actor_ref n h g there e =
        elim (Option-cases (find_actor claims.subject name h.actors)) [
          | inl missing ↦
              rw (missing, scale_actor)
                (start_missing-replicas actor_ref n h g there missing
                  (rw (missing, scale_actor) at e))
          | inr (actor, found) ↦
              rw (found, scale_actor)
                (resize-replicas actor n h g there found (rw (found, scale_actor) at e))
        ]

  -- A reconciliation that returns claims leaves, under their public key and the name of the actor,
  -- exactly as many instances as were asked for: whether it started the actor, added instances,
  -- stopped some, or had nothing to do.
  pub reconcile_actor-replicas :
      (name actor_ref : String) (n : ℕ) (h : Host) (claims : Claims ActorMetadata)
      → (reconcile_actor P name actor_ref n h).0 ≡ ok claims
      → replicas claims.subject name (reconcile_actor P name actor_ref n h).1 ≡ n
  reconcile_actor-replicas name actor_ref n h claims e =
      elim (reconcile_actor_cases P name actor_ref n h) [
        | inl (x, p) ↦ absurd (ground arith)
        | inr (c, _, p) ↦ rw p (scaled c (rw p at e))
      ]
    where
      scaled :
          (c : Claims ActorMetadata)
          → ((scale_actor P c name actor_ref n >>= λ _. pure c) (prepared name c.subject h)).0
            ≡ ok claims
          → replicas claims.subject name
              ((scale_actor P c name actor_ref n >>= λ _. pure c) (prepared name c.subject h)).1
            ≡ n
      scaled c q =
          let (g, there) = ensure_group-group c.subject (register_key name c.subject h) in
          let (u, done, same) = bind-eq-ok (scale_actor P c name actor_ref n) (λ _. pure c) _ q in
          let same_claims : c ≡ claims = ground (arith, same) in
          rw (done, ← same_claims) (scale_actor-replicas c name actor_ref n _ g there done)
