-- ===== src/Host/Actors/Accounting/Removed.antt =====
-- A removal keeps the books.
use kasmcloud.Prelude.{ℕ, ◌+◌, String, ◌≡◌, refl, some, [], ◌∷◌, arith, inl, inr, Option-cases}
use kasmcloud.Map.{Map, lookup, remove, Distinct}
use kasmcloud.Map.Laws.{remove-Distinct, lookup-remove}
use kasmcloud.Map.Totals.{total, total-remove}
use kasmcloud.External.Effects.{Trace}
use kasmcloud.Host.{Host, Actor, ActorGroup}
use kasmcloud.Host.Actors.{without_actor, stop_actor, put_group, leave_group, remove_actor}
use kasmcloud.Host.Actors.Accounting.{served, stopped, marks, abort_all-marks}
use kasmcloud.Host.Actors.Accounting.Balance.{
  size_of, group_size, IsBalanced, insert-IsBalanced, same-IsBalanced,
}

-- an actor leaves its group, with its instances stopped
without_actor-Distinct :
    (name : String) (g : ActorGroup) → Distinct g.actors → Distinct (without_actor name g).actors
unfolding without_actor
without_actor-Distinct name g d = elim (Option-cases (lookup name g.actors)) [
  | inl e ↦ rw (e, without_actor) d
  | inr (a, e) ↦ rw (e, without_actor) (remove-Distinct name g.actors d)
]

module _ (mark : String → ℕ) where
  stop_actor-marks :
      (name : String) (g : ActorGroup) (t : Trace)
      → Distinct g.actors
      → (served mark (stop_actor name g t) ≡ served mark t)
        × (group_size mark (without_actor name g) + stopped mark (stop_actor name g t)
            ≡ group_size mark g + stopped mark t)
  unfolding stop_actor without_actor
  stop_actor-marks name g t d = elim (Option-cases (lookup name g.actors)) [
    | inl e ↦ rw (e, stop_actor, without_actor) (refl, refl)
    | inr (a, e) ↦
        let (s, b) = abort_all-marks mark a.instances t in
        let sum : total (size_of mark) (remove name g.actors) + marks mark a.instances
            ≡ total (size_of mark) g.actors =
          rw e at (total-remove (size_of mark) name g.actors d) in
        rw (e, stop_actor, without_actor) (s, omega (arith, b, sum))
  ]

  put_group-IsBalanced :
      (key : String) (g g' : ActorGroup) (h : Host) (t : Trace) (held : Map Actor)
      → IsBalanced mark h
      → lookup key h.actors ≡ some g
      → g'.actors ≡ held
      → Distinct g'.actors
      → served mark t + group_size mark g + stopped mark h.trace
        ≡ served mark h.trace + group_size mark g' + stopped mark t
      → IsBalanced mark (record h { actors = put_group key g' h.actors; trace = t })
  unfolding put_group
  put_group-IsBalanced key g g' h t [] v there empty d moved =
      rw (empty, put_group)
        (record {
          distinct = remove-Distinct key h.actors v.distinct;
          each = λ k x e. ground (arith, v.each k x, lookup-remove key k h.actors);
          balance =
              let sum : total (group_size mark) (remove key h.actors) + group_size mark g
                  ≡ total (group_size mark) h.actors =
                rw there at (total-remove (group_size mark) key h.actors v.distinct) in
              let none_left : group_size mark g' ≡ 0 = rw empty refl in
              omega (arith, sum, moved, none_left, v.balance);
        })
  put_group-IsBalanced key g g' h t (x ∷ xs) v there full d moved =
      rw (full, put_group) (insert-IsBalanced mark key g g' h t v there d moved)

  leave_group-IsBalanced :
      (key name : String) (h : Host) → IsBalanced mark h → IsBalanced mark (leave_group key name h)
  unfolding leave_group
  leave_group-IsBalanced key name h v = elim (Option-cases (lookup key h.actors)) [
    | inl e ↦ rw (e, leave_group) v
    | inr (g, e) ↦
        let (s, b) = stop_actor-marks name g h.trace (v.each key g e) in
        rw (e, leave_group)
          (put_group-IsBalanced key g (without_actor name g) h (stop_actor name g h.trace)
            (without_actor name g).actors v e refl (without_actor-Distinct name g (v.each key g e))
            (omega (arith, s, b)))
  ]

  pub remove_actor-IsBalanced :
      (name : String) (h : Host) → IsBalanced mark h → IsBalanced mark (remove_actor name h).1
  unfolding remove_actor
  remove_actor-IsBalanced name h v = elim (Option-cases (lookup name h.actor_keys)) [
    | inl e ↦ rw (e, remove_actor) v
    | inr (key, e) ↦
        rw (e, remove_actor)
          (same-IsBalanced mark (leave_group key name h) _ refl refl
            (leave_group-IsBalanced key name h v))
  ]
