-- ===== src/Host/Actors/Groups.antt =====
-- The links of a group are computed when it is made, and no actor operation changes them after.
use kasmcloud.Prelude.{
  ℕ, String, ◌≡◌, refl, inl, inr, none, some, [], ◌∷◌, arith, Option-cases, Bool-cases, ◌==◌,
  eq_iff,
}
use kasmcloud.Map.{Map, lookup}
use kasmcloud.Map.Laws.{lookup-insert, lookup-remove}
use kasmcloud.External.{LinkDefinition}
use kasmcloud.External.Platform.{Platform}
use kasmcloud.Host.{Host, Actor, ActorGroup}
use kasmcloud.Host.Links.{linkdef_hash, get_actor_links}
use kasmcloud.Host.Links.Table.{find_link}
use kasmcloud.Host.Links.View.{entity_if, find_link-get_actor_links}
use kasmcloud.Host.Links.Consistency.{InStep, IsConsistent}
use kasmcloud.Host.Actors.{
  set_actor, register_key, ensure_group, new_group, without_actor, put_group, leave_group,
  remove_actor, reconcile_actor,
}
use kasmcloud.Host.Actors.Cases.{prepared, reconcile_actor_cases}
use kasmcloud.Host.Actors.Changes.{Adjusts, lookup-set_actor, finished-Adjusts}

-- Every group that is there was there before, with the same links.
abbrev pub KeepsLinks : Map ActorGroup → Map ActorGroup → Type 0
KeepsLinks actors actors' =
    (k : String) (g : ActorGroup)
    → lookup k actors' ≡ some g
    → (g' : ActorGroup) × (lookup k actors ≡ some g') × (g.links ≡ g'.links)

pub set_actor-KeepsLinks :
    (subject name : String) (a : Actor) (actors : Map ActorGroup)
    → KeepsLinks actors (set_actor subject name a actors)
set_actor-KeepsLinks subject name a actors k g e = elim (Option-cases (lookup k actors)) [
  | inl q ↦ absurd (ground (arith, lookup-set_actor subject name k a actors))
  | inr (g', q) ↦ (g', q, ground (arith, lookup-set_actor subject name k a actors))
]

put_group-KeepsLinks :
    (key : String) (g g' : ActorGroup) (held : Map Actor) (actors : Map ActorGroup)
    → g.actors ≡ held
    → lookup key actors ≡ some g'
    → g.links ≡ g'.links
    → KeepsLinks actors (put_group key g actors)
unfolding put_group
put_group-KeepsLinks key g g' held actors e there same k x f =
    elim (Option-cases (lookup k actors)) [
      | inl q ↦ absurd (absent held e q f)
      | inr (y, q) ↦ (y, q, kept held e y q f)
    ]
  where
    absent :
        (held : Map Actor)
        → g.actors ≡ held
        → lookup k actors ≡ none
        → lookup k (put_group key g actors) ≡ some x
        → ⊥
    absent [] e q f = ground (arith, lookup-remove key k actors)
    absent (z ∷ zs) e q f = ground (arith, lookup-insert key k g actors, eq_iff key k)

    kept :
        (held : Map Actor)
        → g.actors ≡ held
        → (y : ActorGroup) → lookup k actors ≡ some y
        → lookup k (put_group key g actors) ≡ some x
        → x.links ≡ y.links
    kept [] e y q f = ground (arith, lookup-remove key k actors)
    kept (z ∷ zs) e y q f = ground (arith, lookup-insert key k g actors, eq_iff key k)

links-without_actor : (name : String) (g : ActorGroup) → (without_actor name g).links ≡ g.links
unfolding without_actor
links-without_actor name g = ground arith

pub leave_group-KeepsLinks :
    (key name : String) (h : Host) → KeepsLinks h.actors (leave_group key name h).actors
unfolding leave_group
leave_group-KeepsLinks key name h = elim (Option-cases (lookup key h.actors)) [
  | inl e ↦ rw (e, leave_group) λ k g there. (g, there, refl)
  | inr (g, e) ↦
      rw (e, leave_group)
        (put_group-KeepsLinks key (without_actor name g) g _ h.actors refl e
          (links-without_actor name g))
]

pub links-leave_group : (key name : String) (h : Host) → (leave_group key name h).links ≡ h.links
unfolding leave_group
links-leave_group key name h = ground arith

module _ (P : Platform) where
  KeepsLinks-InStep :
      (actors actors' : Map ActorGroup) (links : Map LinkDefinition)
      → KeepsLinks actors actors'
      → InStep P actors links
      → InStep P actors' links
  KeepsLinks-InStep actors actors' links keeps v k c l g e =
      let (g', q, same) = keeps k g e in rw same (v k c l g' q)

  Adjusts-IsConsistent :
      (subject name : String) (h h' : Host)
      → Adjusts subject name h h'
      → IsConsistent P h
      → IsConsistent P h'
  Adjusts-IsConsistent subject name h h' adj v = record {
    distinct = rw adj.links v.distinct;
    hashed = rw adj.links v.hashed;
    in_step = rw adj.links (elim adj.actors [
      | inl same ↦ rw same v.in_step
      | inr (a, set) ↦ rw set (
          KeepsLinks-InStep h.actors _ h.links (set_actor-KeepsLinks subject name a h.actors)
            v.in_step)
    ]);
  }

  ensure_group-IsConsistent :
      (subject : String) (h : Host) → IsConsistent P h → IsConsistent P (ensure_group subject h)
  unfolding ensure_group
  ensure_group-IsConsistent subject h v = elim (Option-cases (lookup subject h.actors)) [
    | inl q ↦
        rw (q, ensure_group)
          (record {
            distinct = v.distinct;
            hashed = v.hashed;
            in_step = λ k c l g e. elim (Bool-cases (subject == k)) [
              | inl here ↦ new k c l g (
                  ground (
                    arith,
                    lookup-insert subject k (new_group subject h) h.actors,
                    eq_iff subject k,
                  ))
              | inr other ↦
                  v.in_step k c l g
                    (ground (arith, lookup-insert subject k (new_group subject h) h.actors))
            ];
          })
    | inr (g, q) ↦ rw (q, ensure_group) v
  ]
    where
      new :
          (k c l : String) (g : ActorGroup)
          → g.links ≡ get_actor_links k h.links
          → find_link c l g.links ≡ entity_if P k c l (lookup (linkdef_hash P k c l) h.links)
      new k c l g e = rw e (find_link-get_actor_links P k c l h.links v.distinct v.hashed)

  register_key-IsConsistent :
      (name subject : String) (h : Host)
      → IsConsistent P h
      → IsConsistent P (register_key name subject h)
  unfolding register_key
  register_key-IsConsistent name subject h v = elim (Option-cases (lookup name h.actor_keys)) [
    | inl q ↦
        rw (q, register_key)
          (record { distinct = v.distinct; hashed = v.hashed; in_step = v.in_step })
    | inr (key, q) ↦ rw (q, register_key) v
  ]

  -- Reconciling an actor, however it ends, keeps the link definitions in order and every actor
  -- group in step with them: a new group starts with the links that the stored definitions give
  -- it.
  pub reconcile_actor-IsConsistent :
      (name actor_ref : String) (n : ℕ) (h : Host)
      → IsConsistent P h
      → IsConsistent P (reconcile_actor P name actor_ref n h).1
  reconcile_actor-IsConsistent name actor_ref n h v =
      elim (reconcile_actor_cases P name actor_ref n h) [
        | inl (e, p) ↦ rw p v
        | inr (c, _, p) ↦ rw p (
            Adjusts-IsConsistent c.subject name (prepared name c.subject h) _
              (finished-Adjusts P c name actor_ref n _)
              (ensure_group-IsConsistent c.subject _
                (register_key-IsConsistent name c.subject h v)))
      ]

  leave_group-IsConsistent :
      (key name : String) (h : Host) → IsConsistent P h → IsConsistent P (leave_group key name h)
  leave_group-IsConsistent key name h v = record {
    distinct = rw (links-leave_group key name h) v.distinct;
    hashed = rw (links-leave_group key name h) v.hashed;
    in_step =
        rw (links-leave_group key name h)
          (KeepsLinks-InStep h.actors _ h.links (leave_group-KeepsLinks key name h) v.in_step);
  }

  -- Removing an actor keeps the link definitions in order and every remaining actor group in step
  -- with them.
  pub remove_actor-IsConsistent :
      (name : String) (h : Host) → IsConsistent P h → IsConsistent P (remove_actor name h).1
  unfolding remove_actor
  remove_actor-IsConsistent name h v = elim (Option-cases (lookup name h.actor_keys)) [
    | inl e ↦ rw (e, remove_actor) v
    | inr (key, e) ↦
        let left = leave_group-IsConsistent key name h v in
        rw (e, remove_actor)
          (record { distinct = left.distinct; hashed = left.hashed; in_step = left.in_step })
  ]
