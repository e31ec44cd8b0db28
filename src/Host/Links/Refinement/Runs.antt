-- ===== src/Host/Links/Refinement/Runs.antt =====
-- Sequences of additions and deletions, and what they leave.
use kasmcloud.Prelude.{
  String, ◌≡◌, ◌⊎◌, refl, ap, ◌∙◌, inl, inr, Option, none, some, List, [], ◌∷◌, arith, Option-cases,
}
use kasmcloud.Map.{lookup}
use kasmcloud.Map.Laws.{lookup-insert, lookup-remove}
use kasmcloud.External.{LinkDefinition}
use kasmcloud.External.Lattice.{Lattice}
use kasmcloud.External.Platform.{Platform}
use kasmcloud.Host.{Host, ActorGroup}
use kasmcloud.Host.Links.{hash_of, announce, store_link, drop_link, add_linkdef, delete_linkdef}
use kasmcloud.Host.Links.Table.{find_link}
use kasmcloud.Host.Links.Step.{lookup-AllHashed}
use kasmcloud.Host.Links.Consistency.{
  IsConsistent, add_linkdef-IsConsistent, delete_linkdef-IsConsistent,
}
use kasmcloud.Host.Links.Faults.{announce-links}
use kasmcloud.Host.Links.Refinement.{
  Command, put, del, about, run_slots, step, run, SameSlot, view, Apart, add_linkdef-view,
  delete_linkdef-view,
}

-- what is said of a group, if there is one
abbrev pub of_group {ℓ} : {A : Type ℓ} → (ActorGroup → A) → Option ActorGroup → Option A
of_group f none = none
of_group f (some g) = some (f g)

module _ (L : Lattice) (P : Platform) (ld : LinkDefinition) (h : Host) (id : String)
    (d : LinkDefinition) where
  -- what is stored afterwards is new or was stored before
  add_linkdef-stored :
      lookup id (add_linkdef L P ld h).1.links ≡ some d → (ld ≡ d) ⊎ (lookup id h.links ≡ some d)
  unfolding add_linkdef store_link
  add_linkdef-stored e = elim (Option-cases (lookup (hash_of P ld) h.links)) [
    | inl free ↦
        let e' : lookup id
              (announce L P ld "put" "failed to publish link deinition"
                (store_link L P ld h)).1.links
            ≡ some d =
          rw (free, add_linkdef) at e in
        ground (
          arith,
          announce-links L P ld "put" "failed to publish link deinition" (store_link L P ld h),
          lookup-insert (hash_of P ld) id ld h.links,
        )
    | inr (old, there) ↦ inr (rw (there, add_linkdef) at e)
  ]

  delete_linkdef-stored :
      lookup id (delete_linkdef L P ld h).1.links ≡ some d → lookup id h.links ≡ some d
  unfolding delete_linkdef drop_link
  delete_linkdef-stored e = elim (Option-cases (lookup (hash_of P ld) h.links)) [
    | inl free ↦ rw (free, delete_linkdef) at e
    | inr (old, there) ↦
        let e' : lookup id
              (announce L P old "del" "failed to publish link definition deletion"
                (drop_link L P (hash_of P ld) old h)).1.links
            ≡ some d =
          rw (there, delete_linkdef) at e in
        ground (
          arith,
          announce-links L P old "del" "failed to publish link definition deletion"
              (drop_link L P (hash_of P ld) old h),
          lookup-remove (hash_of P ld) id h.links,
        )
  ]

module _ (L : Lattice) (P : Platform) (Q : LinkDefinition → Type 0)
    (separates : (ld d : LinkDefinition)
      → Q ld
      → Q d
      → hash_of P d ≡ hash_of P ld
      → SameSlot ld d) where
  -- every stored definition is one of those told apart by their hashes
  pub record Ready (h : Host) : Type 0 where
    pub consistent : IsConsistent P h
    pub stored : (id : String) (d : LinkDefinition) → lookup id h.links ≡ some d → Q d

  abbrev pub AllAbout : List Command → Type 0
  AllAbout [] = Unit
  AllAbout (c ∷ cs) = Q (about c) × AllAbout cs

  Ready-Apart : (ld : LinkDefinition) (h : Host) → Q ld → Ready h → Apart P ld h
  Ready-Apart ld h q r d there =
      separates ld d q (r.stored (hash_of P ld) d there)
        (lookup-AllHashed P (hash_of P ld) d h.links r.consistent.hashed there)

  step-Ready : (c : Command) (h : Host) → Q (about c) → Ready h → Ready (step L P c h)
  step-Ready (put ld) h q r = record {
    consistent = add_linkdef-IsConsistent L P ld h r.consistent;
    stored = λ id d e. elim (add_linkdef-stored L P ld h id d e) [
      | inl same ↦ rw (← same) q
      | inr old ↦ r.stored id d old
    ];
  }
  step-Ready (del ld) h q r = record {
    consistent = delete_linkdef-IsConsistent L P ld h r.consistent;
    stored = λ id d e. r.stored id d (delete_linkdef-stored L P ld h id d e);
  }

  step-view :
      (c : Command) (h : Host)
      → Q (about c)
      → Ready h
      → view P (step L P c h) ≡ run_slots (c ∷ []) (view P h)
  step-view (put ld) h q r i k c l = add_linkdef-view L P ld h (Ready-Apart ld h q r) k c l i
  step-view (del ld) h q r i k c l =
      delete_linkdef-view L P ld h (Ready-Apart ld h q r) r.consistent k c l i

  run-Ready : (cs : List Command) (h : Host) → AllAbout cs → Ready h → Ready (run L P cs h)
  run-Ready [] h q r = r
  run-Ready (c ∷ cs) h q r = run-Ready cs (step L P c h) q.1 (step-Ready c h q.0 r)

  run-view :
      (cs : List Command) (h : Host)
      → AllAbout cs
      → Ready h
      → view P (run L P cs h) ≡ run_slots cs (view P h)
  run-view [] h q r = refl
  run-view (put ld ∷ cs) h q r =
      run-view cs (step L P (put ld) h) q.1 (step-Ready (put ld) h q.0 r)
      ∙ ap (run_slots cs) (step-view (put ld) h q.0 r)
  run-view (del ld ∷ cs) h q r =
      run-view cs (step L P (del ld) h) q.1 (step-Ready (del ld) h q.0 r)
      ∙ ap (run_slots cs) (step-view (del ld) h q.0 r)

  -- Given that hashes tell the definitions of different slots apart, and a host whose tables are
  -- consistent, any sequence of additions and deletions of link definitions, succeeding or
  -- failing, leaves the stored definitions as the sequence leaves a plain table of slots by actor,
  -- contract and link name, in which an addition fills a free slot and a deletion clears one; and
  -- whichever actor has a group then, its links have under each contract and link name what that
  -- table has.
  pub run-refines :
      (cs : List Command) (h : Host) (k c l : String)
      → AllAbout cs
      → Ready h
      → (view P (run L P cs h) ≡ run_slots cs (view P h))
        × (of_group (λ g. find_link c l g.links) (lookup k (run L P cs h).actors)
            ≡ of_group (λ g. run_slots cs (view P h) k c l) (lookup k (run L P cs h).actors))
  run-refines cs h k c l q r = (
    run-view cs h q r,
    elim (Option-cases (lookup k (run L P cs h).actors)) [
      | inl e ↦ rw e refl
      | inr (g, e) ↦ rw e (
          ap some (
            (run-Ready cs h q r).consistent.in_step k c l g e
            ∙ ap (λ slots. slots k c l) (run-view cs h q r)))
    ],
  )
