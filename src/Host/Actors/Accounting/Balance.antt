-- ===== src/Host/Actors/Accounting/Balance.antt =====
-- The instances that the host holds are those that serve and were not stopped: the books, and a
-- change of one group.
use kasmcloud.Prelude.{ℕ, ◌+◌, String, ◌≡◌, refl, some, [], ◌∷◌, ok, arith, length, List}
use kasmcloud.Map.{Map, lookup, insert, Distinct}
use kasmcloud.Map.Laws.{insert-Distinct, lookup-insert}
use kasmcloud.Map.Totals.{total, weight_of, total-insert}
use kasmcloud.External.Effects.{Trace}
use kasmcloud.External.Platform.{Platform}
use kasmcloud.Actor.{ActorInstance}
use kasmcloud.Host.{Host, Actor, ActorGroup}
use kasmcloud.Host.Actors.{set_actor, count_instances, count_groups}
use kasmcloud.Host.Actors.Accounting.{served, stopped, marks}

-- The queue can be subscribed to at any time.
abbrev pub Subscribes : Platform → Type 0
Subscribes P = (topic : String) (t : Trace) → P.queue_subscribe topic t ≡ ok tt

module _ (mark : String → ℕ) where
  abbrev pub size_of : Actor → ℕ
  size_of a = marks mark a.instances

  abbrev pub group_size : ActorGroup → ℕ
  group_size g = total size_of g.actors

  -- what the host holds
  abbrev pub held : Host → ℕ
  held h = total group_size h.actors

  -- Keys occur once, in the map and in each group, and the books balance.
  pub record IsBalanced (h : Host) : Type 0 where
    pub distinct : Distinct h.actors
    pub each : (k : String) (g : ActorGroup) → lookup k h.actors ≡ some g → Distinct g.actors
    pub balance : served mark h.trace ≡ total group_size h.actors + stopped mark h.trace

  -- the change of one group
  pub insert-IsBalanced :
      (key : String) (g g' : ActorGroup) (h : Host) (t : Trace)
      → IsBalanced h
      → lookup key h.actors ≡ some g
      → Distinct g'.actors
      → served mark t + group_size g + stopped mark h.trace
        ≡ served mark h.trace + group_size g' + stopped mark t
      → IsBalanced (record h { actors = insert key g' h.actors; trace = t })
  insert-IsBalanced key g g' h t v there d moved = record {
    distinct = insert-Distinct key g' h.actors v.distinct;
    each = λ k x e. ground (arith, v.each k x, lookup-insert key k g' h.actors);
    balance =
        let sum : total group_size (insert key g' h.actors) + group_size g
            ≡ total group_size h.actors + group_size g' =
          rw there at (total-insert group_size key g' h.actors) in
        omega (arith, sum, moved, v.balance);
  }

  pub set_actor-IsBalanced :
      (key name : String) (a : Actor) (h : Host) (g : ActorGroup) (t : Trace)
      → IsBalanced h
      → lookup key h.actors ≡ some g
      → served mark t + weight_of size_of (lookup name g.actors) + stopped mark h.trace
        ≡ served mark h.trace + marks mark a.instances + stopped mark t
      → IsBalanced (record h { actors = set_actor key name a h.actors; trace = t })
  unfolding set_actor
  set_actor-IsBalanced key name a h g t v there moved =
      rw (there, set_actor)
        (insert-IsBalanced key g (record g { actors = insert name a g.actors }) h t v there
          (insert-Distinct name a g.actors (v.each key g there))
          (omega (arith, moved, total-insert size_of name a g.actors)))

  pub same-IsBalanced :
      (h h' : Host) → h'.actors ≡ h.actors → h'.trace ≡ h.trace → IsBalanced h → IsBalanced h'
  same-IsBalanced h h' actors trace v = record {
    distinct = rw actors v.distinct;
    each = λ k g e. v.each k g (rw actors at e);
    balance = rw (actors, trace) v.balance;
  }

marks-one : (is : List ActorInstance) → marks (λ _. 1) is ≡ length is
marks-one [] = refl
marks-one (i ∷ is) = omega (arith, marks-one is)

count_instances-total :
    (actors : Map Actor) → count_instances actors ≡ total (size_of (λ _. 1)) actors
unfolding count_instances
count_instances-total [] = refl
count_instances-total ((n, a) ∷ m) = omega (arith, marks-one a.instances, count_instances-total m)

pub count_groups-total :
    (actors : Map ActorGroup) → count_groups actors ≡ total (group_size (λ _. 1)) actors
unfolding count_groups
count_groups-total [] = refl
count_groups-total ((k, g) ∷ m) =
    omega (arith, count_instances-total g.actors, count_groups-total m)
