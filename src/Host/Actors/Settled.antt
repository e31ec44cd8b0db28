-- ===== src/Host/Actors/Settled.antt =====
-- A reconciliation that has returned leaves nothing to do: the next one, with the same image and
-- number, changes nothing.
use kasmcloud.Prelude.{
  ℕ, ◌-◌, String, true, ◌≡◌, refl, inl, inr, some, ok, arith, length, leb, Result-cases,
  Option-cases, ◌>>=◌, pure, bind-eq-ok, eq_refl,
}
use kasmcloud.Map.{lookup, insert}
use kasmcloud.External.{Bytes, Claims, ActorMetadata}
use kasmcloud.External.Platform.{Platform}
use kasmcloud.Host.{Host, Actor, ActorGroup}
use kasmcloud.Host.Actors.{
  find_actor, register_key, ensure_group, fetch_actor, start_missing, scale_up, resize, scale_actor,
  check_key, reconcile_actor,
}
use kasmcloud.Host.Actors.Cases.{prepared, ensure_group-group}
use kasmcloud.Host.Actors.Changes.{Adjusts, lookup-set_actor, finished-Adjusts}
use kasmcloud.Host.Actors.Keys.{register_key-known, actor_keys-ensure_group}
use kasmcloud.Host.Actors.Scaling.{replicas, reconcile_actor-replicas}

-- The name is registered under the key, the group is there, and the actor has so many instances.
record IsSettled (subject name : String) (n : ℕ) (h : Host) : Type 0 where
  known : lookup name h.actor_keys ≡ some subject
  group : ActorGroup
  there : lookup subject h.actors ≡ some group
  size : replicas subject name h ≡ n

Adjusts-group :
    (subject name : String) (h h' : Host) (g : ActorGroup)
    → Adjusts subject name h h'
    → lookup subject h.actors ≡ some g
    → (g' : ActorGroup) × (lookup subject h'.actors ≡ some g')
Adjusts-group subject name h h' g adj there = elim adj.actors [
  | inl same ↦ (g, rw same there)
  | inr (a, set) ↦ (
    record g { actors = insert name a g.actors },
    rw (set, lookup-set_actor subject name subject a h.actors, eq_refl subject, there) refl,
  )
]

registered_already :
    (name subject : String) (h : Host)
    → lookup name h.actor_keys ≡ some subject
    → register_key name subject h ≡ h
unfolding register_key
registered_already name subject h e = rw (e, register_key) refl

grouped_already :
    (subject : String) (g : ActorGroup) (h : Host)
    → lookup subject h.actors ≡ some g
    → ensure_group subject h ≡ h
unfolding ensure_group
grouped_already subject g h e = rw (e, ensure_group) refl

leb_self : (n : ℕ) → leb n n ≡ true
leb_self n = ground arith

minus_self : (n : ℕ) → n - n ≡ 0
minus_self n = omega arith

module _ (P : Platform) (claims : Claims ActorMetadata) (name actor_ref : String) (h : Host) where
  resize_same : (actor : Actor) → resize P claims name actor (length actor.instances) h ≡ (ok tt, h)
  unfolding resize scale_up
  resize_same actor =
      rw (leb_self (length actor.instances), resize, minus_self (length actor.instances), scale_up)
        refl

  scale_actor_same :
      (n : ℕ)
      → replicas claims.subject name h ≡ n
      → scale_actor P claims name actor_ref n h ≡ (ok tt, h)
  unfolding scale_actor start_missing
  scale_actor_same n size = elim (Option-cases (find_actor claims.subject name h.actors)) [
    | inl missing ↦
        let nothing : 0 ≡ n = rw missing at size in rw (missing, scale_actor, ← nothing) refl
    | inr (actor, found) ↦
        let same : length actor.instances ≡ n = rw found at size in
        rw (found, scale_actor, ← same) (resize_same actor)
  ]

module _ (P : Platform) (name actor_ref : String) (n : ℕ) where
  -- the image that is behind claims
  Fetches : Claims ActorMetadata → Host → Type 0
  Fetches claims h =
      (file : Bytes) × (P.fetch_actor actor_ref h.trace ≡ ok file)
      × (P.new_actor file ≡ ok (some claims))

  fetch_actor-Fetches :
      (h h' : Host) (claims : Claims ActorMetadata)
      → P.fetch_actor actor_ref h'.trace ≡ P.fetch_actor actor_ref h.trace
      → Fetches claims h
      → fetch_actor P actor_ref h' ≡ (ok (some claims), h')
  unfolding fetch_actor Fetches
  fetch_actor-Fetches h h' claims same f = rw (same, fetch_actor, f.1, f.2) refl

  -- What a reconciliation that returned went through.
  record Ran (h : Host) (claims : Claims ActorMetadata) : Type 0 where
    fetched : Fetches claims h
    allowed : check_key P name claims.subject h ≡ ok tt
    went :
        reconcile_actor P name actor_ref n h
        ≡ (scale_actor P claims name actor_ref n >>= λ _. pure claims)
            (prepared name claims.subject h)

  reconcile_actor-Ran :
      (h : Host) (claims : Claims ActorMetadata)
      → (reconcile_actor P name actor_ref n h).0 ≡ ok claims
      → Ran h claims
  unfolding reconcile_actor fetch_actor Fetches
  reconcile_actor-Ran h claims done = elim (Result-cases (P.fetch_actor actor_ref h.trace)) [
    | inl (e, p) ↦ absurd (ground arith)
    | inr (file, p) ↦ elim (Result-cases (P.new_actor file)) [
      | inl (e, q) ↦ absurd (ground arith)
      | inr (actor, q) ↦ elim (Option-cases actor) [
        | inl r ↦ absurd (ground arith)
        | inr (c, r) ↦ elim (Result-cases (check_key P name c.subject h)) [
          | inl (e, s) ↦ absurd (ground arith)
          | inr (u, s) ↦
              let went : reconcile_actor P name actor_ref n h
                  ≡ (scale_actor P c name actor_ref n >>= λ _. pure c) (prepared name c.subject h) =
                rw (p, q, r, s) refl in
              let (u, scaled, returned) =
                bind-eq-ok (scale_actor P c name actor_ref n) (λ _. pure c)
                  (prepared name c.subject h) (rw went at done) in
              let same : c ≡ claims = ground (arith, returned) in
              rw (← same) (record { fetched = (file, p, rw r at q); allowed = s; went = went })
        ]
      ]
    ]
  ]

  settled :
      (h : Host) (claims : Claims ActorMetadata)
      → fetch_actor P actor_ref h ≡ (ok (some claims), h)
      → IsSettled claims.subject name n h
      → reconcile_actor P name actor_ref n h ≡ (ok claims, h)
  unfolding reconcile_actor check_key
  settled h claims fetched v =
      rw
        (
          fetched,
          reconcile_actor,
          v.known,
          check_key,
          eq_refl claims.subject,
          registered_already name claims.subject h v.known,
          grouped_already claims.subject v.group h v.there,
          scale_actor_same P claims name actor_ref h n v.size,
        )
        refl

  reconcile_actor-IsSettled :
      (h : Host) (claims : Claims ActorMetadata)
      → (reconcile_actor P name actor_ref n h).0 ≡ ok claims
      → IsSettled claims.subject name n (reconcile_actor P name actor_ref n h).1
  reconcile_actor-IsSettled h claims done =
      let ran = reconcile_actor-Ran h claims done in
      let adj = finished-Adjusts P claims name actor_ref n (prepared name claims.subject h) in
      let (g, there) = ensure_group-group claims.subject (register_key name claims.subject h) in
      let (g', there') = Adjusts-group claims.subject name _ _ g adj there in
      record {
        known =
            rw
              (
                ran.went,
                adj.keys,
                actor_keys-ensure_group claims.subject (register_key name claims.subject h),
              )
              (register_key-known P name claims.subject h ran.allowed);
        group = g';
        there = rw ran.went there';
        size = reconcile_actor-replicas P name actor_ref n h claims done;
      }

  -- After a reconciliation of an actor that returned claims, a second one for the same name, image
  -- and number, for which the registry has the same answer, returns the same claims and leaves the
  -- host exactly as it was.
  pub reconcile_actor_settles :
      (h : Host) (claims : Claims ActorMetadata)
      → (reconcile_actor P name actor_ref n h).0 ≡ ok claims
      → P.fetch_actor actor_ref (reconcile_actor P name actor_ref n h).1.trace
        ≡ P.fetch_actor actor_ref h.trace
      → reconcile_actor P name actor_ref n (reconcile_actor P name actor_ref n h).1
        ≡ (ok claims, (reconcile_actor P name actor_ref n h).1)
  reconcile_actor_settles h claims done same =
      settled _ claims
        (fetch_actor-Fetches h _ claims same (reconcile_actor-Ran h claims done).fetched)
        (reconcile_actor-IsSettled h claims done)
