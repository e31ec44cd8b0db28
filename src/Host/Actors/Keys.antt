-- ===== src/Host/Actors/Keys.antt =====
-- The table of keys and the groups agree: an actor is held in the group of the key registered for
-- its name, so no name runs under two keys.
use kasmcloud.Prelude.{ℕ, String, ◌≡◌, ◌⊎◌, inl, inr, some, ok, arith, Option-cases, eq_iff}
use kasmcloud.Map.{Map, lookup}
use kasmcloud.Map.Laws.{lookup-insert, lookup-insert_self}
use kasmcloud.External.Platform.{Platform}
use kasmcloud.Host.{Host, Actor, ActorGroup}
use kasmcloud.Host.Actors.{
  find_actor, set_actor, register_key, ensure_group, new_group, check_key, reconcile_actor,
}
use kasmcloud.Host.Actors.Cases.{prepared, reconcile_actor_cases}
use kasmcloud.Host.Actors.Changes.{Adjusts, lookup-set_actor, finished-Adjusts}

pub record KeysMatch (h : Host) : Type 0 where
  pub placed :
      (k n : String) (a : Actor) → find_actor k n h.actors ≡ some a → lookup n h.actor_keys ≡ some k

-- found after a write: the one written, or one that was there before
find_actor-set_actor_inv :
    (subject name k n : String) (a b : Actor) (actors : Map ActorGroup)
    → find_actor k n (set_actor subject name a actors) ≡ some b
    → ((k ≡ subject) × (n ≡ name)) ⊎ (find_actor k n actors ≡ some b)
find_actor-set_actor_inv subject name k n a b actors e = elim (Option-cases (lookup k actors)) [
  | inl q ↦ absurd (ground (arith, lookup-set_actor subject name k a actors))
  | inr (g, q) ↦ ground (
    arith,
    lookup-set_actor subject name k a actors,
    lookup-insert name n a g.actors,
    eq_iff subject k,
    eq_iff name n,
  )
]

Adjusts-KeysMatch :
    (subject name : String) (h h' : Host)
    → lookup name h.actor_keys ≡ some subject
    → Adjusts subject name h h'
    → KeysMatch h
    → KeysMatch h'
Adjusts-KeysMatch subject name h h' known adj v = record { placed = λ k n a e. placed' k n a e }
  where
    placed' :
        (k n : String) (a : Actor)
        → find_actor k n h'.actors ≡ some a
        → lookup n h'.actor_keys ≡ some k
    placed' k n a e = rw adj.keys (elim adj.actors [
      | inl same ↦ v.placed k n a (rw same at e)
      | inr (b, set) ↦ elim (find_actor-set_actor_inv subject name k n b a h.actors (rw set at e)) [
        | inl (p, q) ↦ rw (p, q) known
        | inr old ↦ v.placed k n a old
      ]
    ])

module _ (P : Platform) (name subject : String) (h : Host) where
  -- a checked name ends up registered under the key
  pub register_key-known :
      check_key P name subject h ≡ ok tt
      → lookup name (register_key name subject h).actor_keys ≡ some subject
  unfolding check_key register_key
  register_key-known e = elim (Option-cases (lookup name h.actor_keys)) [
    | inl q ↦ rw (q, register_key) (lookup-insert_self name subject h.actor_keys)
    | inr (key, q) ↦ ground (arith, eq_iff key subject)
  ]

  register_key-KeysMatch : KeysMatch h → KeysMatch (register_key name subject h)
  unfolding register_key
  register_key-KeysMatch v = elim (Option-cases (lookup name h.actor_keys)) [
    | inl q ↦
        rw (q, register_key)
          (record {
            placed = λ k n a e.
                ground (
                  arith,
                  v.placed k n a e,
                  lookup-insert name n subject h.actor_keys,
                  eq_iff name n,
                );
          })
    | inr (key, q) ↦ rw (q, register_key) v
  ]

ensure_group-KeysMatch :
    (subject : String) (h : Host) → KeysMatch h → KeysMatch (ensure_group subject h)
unfolding ensure_group lookup
ensure_group-KeysMatch subject h v = elim (Option-cases (lookup subject h.actors)) [
  | inl q ↦
      rw (q, ensure_group)
        (record {
          placed = λ k n a e.
              ground
                (arith, v.placed k n a, lookup-insert subject k (new_group subject h) h.actors);
        })
  | inr (g, q) ↦ rw (q, ensure_group) v
]

pub actor_keys-ensure_group :
    (subject : String) (h : Host) → (ensure_group subject h).actor_keys ≡ h.actor_keys
unfolding ensure_group
actor_keys-ensure_group subject h = ground arith

-- Reconciling an actor, however it ends, keeps every actor in the group of the public key that is
-- registered for its name, so that no name runs under two keys.
pub reconcile_actor-KeysMatch :
    (P : Platform) (name actor_ref : String) (n : ℕ) (h : Host)
    → KeysMatch h
    → KeysMatch (reconcile_actor P name actor_ref n h).1
reconcile_actor-KeysMatch P name actor_ref n h v =
    elim (reconcile_actor_cases P name actor_ref n h) [
      | inl (e, p) ↦ rw p v
      | inr (c, checked, p) ↦ rw p (
          Adjusts-KeysMatch c.subject name (prepared name c.subject h) _
            (rw (actor_keys-ensure_group c.subject (register_key name c.subject h))
              (register_key-known P name c.subject h checked))
            (finished-Adjusts P c name actor_ref n _)
            (ensure_group-KeysMatch c.subject _ (register_key-KeysMatch P name c.subject h v)))
    ]
