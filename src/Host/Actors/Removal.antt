-- ===== src/Host/Actors/Removal.antt =====
-- `remove_actor` seen through the actors that can be found.
use kasmcloud.Prelude.{
  String, ◌≡◌, ◌≢◌, refl, inl, inr, none, some, [], ◌∷◌, arith, Option-cases, Bool-cases, ◌==◌,
  ◌&&◌, eq_iff, if◌then◌else◌,
}
use kasmcloud.Map.{Map, lookup}
use kasmcloud.Map.Laws.{lookup-insert, lookup-remove, lookup-remove_self}
use kasmcloud.Host.{Host, Actor, ActorGroup}
use kasmcloud.Host.Actors.{find_actor, without_actor, put_group, leave_group, remove_actor}
use kasmcloud.Host.Actors.Keys.{KeysMatch}

lookup-without_actor :
    (name n : String) (g : ActorGroup)
    → lookup n (without_actor name g).actors ≡ (if name == n then none else lookup n g.actors)
unfolding without_actor
lookup-without_actor name n g = elim (Option-cases (lookup name g.actors)) [
  | inl e ↦ ground (arith, eq_iff name n)
  | inr (a, e) ↦ ground (arith, lookup-remove name n g.actors)
]

find_actor-put_group_at :
    (key k n : String) (g : ActorGroup) (held : Map Actor) (actors : Map ActorGroup)
    → g.actors ≡ held
    → find_actor k n (put_group key g actors)
      ≡ (if key == k then lookup n g.actors else find_actor k n actors)
unfolding put_group lookup
find_actor-put_group_at key k n g [] actors e = ground (arith, lookup-remove key k actors)
find_actor-put_group_at key k n g (x ∷ xs) actors e = ground (arith, lookup-insert key k g actors)

find_actor-leave_group :
    (key name k n : String) (h : Host)
    → find_actor k n (leave_group key name h).actors
      ≡ (if key == k && name == n then none else find_actor k n h.actors)
unfolding leave_group
find_actor-leave_group key name k n h = elim (Option-cases (lookup key h.actors)) [
  | inl e ↦ ground (arith, eq_iff key k)
  | inr (g, e) ↦ ground (
    arith,
    eq_iff key k,
    find_actor-put_group_at key k n (without_actor name g) (without_actor name g).actors h.actors
        refl,
    lookup-without_actor name n g,
  )
]

actor_keys-leave_group :
    (key name : String) (h : Host) → (leave_group key name h).actor_keys ≡ h.actor_keys
unfolding leave_group
actor_keys-leave_group key name h = ground arith

module _ (name : String) (h : Host) (v : KeysMatch h) where
  -- under another key than the registered one there is no such actor
  unplaced : (k n : String) → lookup n h.actor_keys ≢ some k → find_actor k n h.actors ≡ none
  unplaced k n elsewhere = elim (Option-cases (find_actor k n h.actors)) [
    | inl e ↦ e
    | inr (a, e) ↦ absurd (elsewhere (v.placed k n a e))
  ]

  find_actor-left :
      (key k n : String)
      → lookup name h.actor_keys ≡ some key
      → find_actor k n (leave_group key name h).actors
        ≡ (if name == n then none else find_actor k n h.actors)
  find_actor-left key k n e = elim (Bool-cases (key == k)) [
    | inl here ↦ rw (find_actor-leave_group key name k n h, here)
    | inr other ↦
        rw (find_actor-leave_group key name k n h, other)
          (elim (Bool-cases (name == n)) [
            | inl same ↦ rw (same, unplaced k n λ q. ground (arith, eq_iff name n, eq_iff key k))
            | inr differs ↦ rw differs
          ])
  ]

  -- In a host whose registered keys match its groups, removing an actor by name takes it out of
  -- whatever group holds it, forgets its key, and leaves every other actor of every group as it
  -- was.
  pub find_actor-remove_actor :
      (k n : String)
      → (find_actor k n (remove_actor name h).1.actors
          ≡ (if name == n then none else find_actor k n h.actors))
        × (lookup name (remove_actor name h).1.actor_keys ≡ none)
  unfolding remove_actor
  find_actor-remove_actor k n = elim (Option-cases (lookup name h.actor_keys)) [
    | inl e ↦
        rw (e, remove_actor)
          (elim (Bool-cases (name == n)) [
            | inl same ↦ (rw (same, unplaced k n λ q. ground (arith, eq_iff name n)), e)
            | inr differs ↦ (rw differs, e)
          ])
    | inr (key, e) ↦ rw (e, remove_actor) (find_actor-left key k n e, lookup-remove_self name _)
  ]

  -- Removing an actor keeps every remaining actor in the group of the public key that is
  -- registered for its name.
  pub remove_actor-KeysMatch : KeysMatch (remove_actor name h).1
  unfolding remove_actor
  remove_actor-KeysMatch = elim (Option-cases (lookup name h.actor_keys)) [
    | inl e ↦ rw (e, remove_actor) v
    | inr (key, e) ↦
        rw (e, remove_actor)
          (record {
            placed = λ k n a f. rw actor_keys-leave_group (
                ground (
                  arith,
                  find_actor-left key k n e,
                  v.placed k n a,
                  lookup-remove name n h.actor_keys,
                ));
          })
  ]
