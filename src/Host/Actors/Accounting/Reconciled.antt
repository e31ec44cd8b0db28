-- ===== src/Host/Actors/Accounting/Reconciled.antt =====
-- A reconciliation keeps the books.
use kasmcloud.Prelude.{
  ℕ, zero, suc, ◌+◌, ◌-◌, String, ◌≡◌, refl, ap, none, some, List, [], ◌∷◌, ◌++◌, ok, arith, length,
  take, drop, leb, inl, inr, Result-cases, Option-cases, Bool-cases, ◌==◌, format,
}
use kasmcloud.Map.{lookup, insert}
use kasmcloud.Map.Laws.{insert-Distinct, lookup-insert}
use kasmcloud.Map.Totals.{total, total-insert}
use kasmcloud.External.{Claims, ActorMetadata}
use kasmcloud.External.Effects.{Trace, Effect}
use kasmcloud.External.Platform.{Platform}
use kasmcloud.Handler.{Handler}
use kasmcloud.Actor.{ActorInstance}
use kasmcloud.Host.{Host, Actor, ActorGroup}
use kasmcloud.Host.Actors.{
  set_actor, new_handler, new_group, register_key, ensure_group, instantiate_one, instantiate_many,
  instantiate_actor, start_actor, start_missing, scale_up, scale_down, resize, scale_actor,
  reconcile_actor,
}
use kasmcloud.Host.Actors.Cases.{prepared, ensure_group-group, reconcile_actor_cases}
use kasmcloud.Host.Actors.Scaling.{actors-instantiate_actor, actors-start_actor}
use kasmcloud.Host.Actors.Accounting.{
  marks-append, marks-parted, abort_all-marks, instantiate_actor-Gains, start_actor-Gains,
}
use kasmcloud.Host.Actors.Accounting.Balance.{
  group_size, IsBalanced, set_actor-IsBalanced, same-IsBalanced, Subscribes,
}

module _ (mark : String → ℕ) where
  module _ (P : Platform) (subscribes : Subscribes P) where
    instantiate_one-ok :
        (topic : String) (handler : Handler) (issuers : List String) (t : Trace)
        → (i : ActorInstance) × ((instantiate_one P topic handler issuers t).0 ≡ ok i)
    unfolding instantiate_one
    instantiate_one-ok topic handler issuers t = (
      record {
        id = P.new_ulid (Effect.subscribed topic ∷ t);
        handler = handler;
        valid_issuers = issuers;
      },
      rw (subscribes topic t) refl,
    )

    instantiate_many-ok :
        (n : ℕ) (topic : String) (handler : Handler) (issuers : List String) (t : Trace)
        → (is : List ActorInstance) × ((instantiate_many P n topic handler issuers t).0 ≡ ok is)
    unfolding instantiate_many
    instantiate_many-ok zero topic handler issuers t = ([], refl)
    instantiate_many-ok (suc n) topic handler issuers t =
        let (i, p) = instantiate_one-ok topic handler issuers t in
        let (rest, q) =
          instantiate_many-ok n topic handler issuers
            (instantiate_one P topic handler issuers t).1 in
        (i ∷ rest, rw (p, q) refl)

    instantiate_actor-ok :
        (claims : Claims ActorMetadata) (n : ℕ) (handler : Handler) (h : Host)
        → (is : List ActorInstance) × ((instantiate_actor P claims n handler h).0 ≡ ok is)
    unfolding instantiate_actor
    instantiate_actor-ok claims n handler h =
        let (is, p) =
          instantiate_many-ok n
            (format ("wasmbus.rpc." ∷ h.lattice_prefix ∷ "." ∷ claims.subject ∷ [])) handler
            h.cluster_issuers h.trace in
        (is, rw p refl)

    start_actor-ok :
        (claims : Claims ActorMetadata) (actor_ref : String) (n : ℕ) (h : Host)
        → (a : Actor) × ((start_actor P (some claims) actor_ref n h).0 ≡ ok a)
    unfolding start_actor
    start_actor-ok claims actor_ref n h =
        let (is, p) = instantiate_actor-ok claims n (new_handler h claims) h in
        (
          record {
            image_ref = actor_ref;
            handler = new_handler h claims;
            pool_size = n;
            instances = is;
          },
          rw p refl,
        )

    module _ (claims : Claims ActorMetadata) (name : String) (h : Host) (g : ActorGroup)
        (there : lookup claims.subject h.actors ≡ some g) (v : IsBalanced mark h) where
      start_missing-IsBalanced :
          (actor_ref : String) (n : ℕ)
          → lookup name g.actors ≡ none
          → IsBalanced mark (start_missing P claims name actor_ref n h).1
      unfolding start_missing
      start_missing-IsBalanced actor_ref zero missing = v
      start_missing-IsBalanced actor_ref (suc n) missing =
          let (a, p) = start_actor-ok claims actor_ref (suc n) h in
          let t = (start_actor P (some claims) actor_ref (suc n) h).1.trace in
          let (s, b) = start_actor-Gains mark P claims actor_ref (suc n) h a p in
          rw p (
            same-IsBalanced mark
              (record h { actors = set_actor claims.subject name a h.actors; trace = t }) _
              (ap (set_actor claims.subject name a)
                (actors-start_actor P (some claims) actor_ref (suc n) h))
              refl
              (set_actor-IsBalanced mark claims.subject name a h g t v there
                (rw missing (omega (arith, s, b)))))

      scale_up-IsBalanced :
          (actor : Actor) (n : ℕ)
          → lookup name g.actors ≡ some actor
          → IsBalanced mark (scale_up P claims name actor n h).1
      unfolding scale_up
      scale_up-IsBalanced actor zero found = v
      scale_up-IsBalanced actor (suc n) found =
          let (is, p) = instantiate_actor-ok claims (suc n) actor.handler h in
          let t = (instantiate_actor P claims (suc n) actor.handler h).1.trace in
          let (s, b) = instantiate_actor-Gains mark P claims (suc n) actor.handler h is p in
          let grown : Actor = record actor { instances = actor.instances ++ is } in
          rw p (
            same-IsBalanced mark
              (record h { actors = set_actor claims.subject name grown h.actors; trace = t }) _
              (ap (set_actor claims.subject name grown)
                (actors-instantiate_actor P claims (suc n) actor.handler h))
              refl
              (set_actor-IsBalanced mark claims.subject name grown h g t v there
                (rw found (omega (arith, s, b, marks-append mark actor.instances is)))))

      scale_down-IsBalanced :
          (actor : Actor) (n : ℕ)
          → lookup name g.actors ≡ some actor
          → IsBalanced mark (scale_down P claims name actor n h).1
      unfolding scale_down
      scale_down-IsBalanced actor n found =
          let (s, b) = abort_all-marks mark (take n actor.instances) h.trace in
          set_actor-IsBalanced mark claims.subject name
            (record actor { instances = drop n actor.instances }) h g _ v there
            (rw found (omega (arith, s, b, marks-parted mark n actor.instances)))

      resize-IsBalanced :
          (actor : Actor) (n : ℕ)
          → lookup name g.actors ≡ some actor
          → IsBalanced mark (resize P claims name actor n h).1
      unfolding resize
      resize-IsBalanced actor n found = elim (Bool-cases (leb (length actor.instances) n)) [
        | inl fewer ↦ rw fewer (scale_up-IsBalanced actor (n - length actor.instances) found)
        | inr more ↦ rw more (scale_down-IsBalanced actor (length actor.instances - n) found)
      ]

      scale_actor-IsBalanced :
          (actor_ref : String) (n : ℕ) → IsBalanced mark (scale_actor P claims name actor_ref n h).1
      unfolding scale_actor
      scale_actor-IsBalanced actor_ref n = elim (Option-cases (lookup name g.actors)) [
        | inl missing ↦
            rw (there, scale_actor, missing) (start_missing-IsBalanced actor_ref n missing)
        | inr (actor, found) ↦ rw (there, scale_actor, found) (resize-IsBalanced actor n found)
      ]

  register_key-IsBalanced :
      (name subject : String) (h : Host)
      → IsBalanced mark h
      → IsBalanced mark (register_key name subject h)
  unfolding register_key
  register_key-IsBalanced name subject h v =
      same-IsBalanced mark h _ (ground arith) (ground arith) v

  ensure_group-IsBalanced :
      (subject : String) (h : Host) → IsBalanced mark h → IsBalanced mark (ensure_group subject h)
  unfolding ensure_group lookup
  ensure_group-IsBalanced subject h v = elim (Option-cases (lookup subject h.actors)) [
    | inr (g, there) ↦ rw (there, ensure_group) v
    | inl missing ↦
        rw (missing, ensure_group)
          (record {
            distinct = insert-Distinct subject (new_group subject h) h.actors v.distinct;
            each = λ k x e. elim (Bool-cases (subject == k)) [
              | inl here ↦
                  let fresh : x.actors ≡ [] =
                    ground (arith, lookup-insert subject k (new_group subject h) h.actors) in
                  rw fresh tt
              | inr away ↦
                  v.each k x
                    (ground (arith, lookup-insert subject k (new_group subject h) h.actors))
            ];
            balance =
                let sum : total (group_size mark) (insert subject (new_group subject h) h.actors)
                      + 0
                    ≡ total (group_size mark) h.actors + 0 =
                  rw missing at
                    (total-insert (group_size mark) subject (new_group subject h) h.actors) in
                omega (arith, sum, v.balance);
          })
  ]

  pub reconcile_actor-IsBalanced :
      (P : Platform) (name actor_ref : String) (n : ℕ) (h : Host)
      → Subscribes P
      → IsBalanced mark h
      → IsBalanced mark (reconcile_actor P name actor_ref n h).1
  reconcile_actor-IsBalanced P name actor_ref n h subscribes v =
      elim (reconcile_actor_cases P name actor_ref n h) [
        | inl (e, p) ↦ rw p v
        | inr (c, _, p) ↦
            let (g, there) = ensure_group-group c.subject (register_key name c.subject h) in
            let scaled =
              scale_actor-IsBalanced P subscribes c name (prepared name c.subject h) g there
                (ensure_group-IsBalanced c.subject _ (register_key-IsBalanced name c.subject h v))
                actor_ref n in
            elim (Result-cases (scale_actor P c name actor_ref n (prepared name c.subject h)).0) [
              | inl (e, q) ↦ rw (p, q) scaled
              | inr (u, q) ↦ rw (p, q) scaled
            ]
      ]
