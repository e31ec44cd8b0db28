-- ===== src/Host/Interleaving/Completion.antt =====
-- Interleaved tasks that have come to their ends, and that they can.
use kasmcloud.Prelude.{◌≡◌, refl, inl, inr, true, false, Option-cases}
use kasmcloud.Map.{lookup}
use kasmcloud.Host.Links.{hash_of}
use kasmcloud.External.Lattice.{Lattice}
use kasmcloud.External.Platform.{Platform}
use kasmcloud.Host.{Host}
use kasmcloud.Host.Links.Consistency.{IsConsistent}
use kasmcloud.Host.Interleaving.{
  LinkTask, no_link, adding, deleting, putting, taking, announcing, GroupTask, no_group, locking,
  creating, State, holds_links, put_links, take_links, put_first, put_skip, put_second, take_first,
  take_missing, take_second, announced, create_read, create_second, Sections, none_yet, and_then,
}
use kasmcloud.Host.Interleaving.Tables.{IsOrdered}
use kasmcloud.Host.Interleaving.Invariant.{Sections-IsOrdered}

abbrev pub quiet : Host → State
quiet h = record { host = h; link = no_link; group = no_group }

module _ (P : Platform) where
  quiet-IsOrdered : (h : Host) → IsConsistent P h → IsOrdered P (quiet h)
  quiet-IsOrdered h v = record {
    distinct = v.distinct;
    hashed = v.hashed;
    in_step = λ k g there c l _. v.in_step k c l g there;
    begun = tt;
    drafted = tt;
  }

  quiet-IsConsistent : (h : Host) → IsOrdered P (quiet h) → IsConsistent P h
  quiet-IsConsistent h v = record {
    distinct = v.distinct;
    hashed = v.hashed;
    in_step = λ k c l g there. v.in_step k g there c l refl;
  }

  -- From a consistent host to one in which no link task and no creation of a group is under way,
  -- any interleaving of the sections of additions and deletions of links, one at a time, with the
  -- creation of groups, changes of actors, their removal and changes elsewhere keeps the host
  -- consistent: no link is lost by a group that is made while a link is added or deleted.
  pub Sections-IsConsistent :
      (L : Lattice) (h h' : Host)
      → Sections L P (quiet h) (quiet h')
      → IsConsistent P h
      → IsConsistent P h'
  Sections-IsConsistent L h h' r v =
      quiet-IsConsistent h' (Sections-IsOrdered L P r (quiet-IsOrdered h v))

module _ (L : Lattice) (P : Platform) where
  and_then_all : {s s' s'' : State} → Sections L P s s' → Sections L P s' s'' → Sections L P s s''
  and_then_all r none_yet = r
  and_then_all r (and_then r' s) = and_then (and_then_all r r') s

  -- A link task that has `self.links` needs no other lock to give it back.
  unlock :
      (t : LinkTask) (h : Host) (g : GroupTask)
      → (t' : LinkTask) × (h' : Host) × (holds_links t' ≡ false)
        × Sections L P
            (record { host = h; link = t; group = g })
            (record { host = h'; link = t'; group = g })
  unlock no_link h g = (no_link, h, refl, none_yet)
  unlock (adding ld) h g = elim (Option-cases (lookup (hash_of P ld) h.links)) [
    | inl fresh ↦ (putting ld, put_links P ld h, refl, and_then none_yet (put_first ld h g fresh))
    | inr (stored, there) ↦ (no_link, h, refl, and_then none_yet (put_skip ld stored h g there))
  ]
  unlock (deleting ld) h g = elim (Option-cases (lookup (hash_of P ld) h.links)) [
    | inl missing ↦ (no_link, h, refl, and_then none_yet (take_missing ld h g missing))
    | inr (stored, there) ↦
        (taking stored, take_links P ld h, refl, and_then none_yet (take_first ld stored h g there))
  ]
  unlock (putting ld) h g = (putting ld, h, refl, none_yet)
  unlock (taking ld) h g = (taking ld, h, refl, none_yet)
  unlock (announcing ld event failure) h g = (announcing ld event failure, h, refl, none_yet)

  -- Then a task that has `self.actors` comes to its end, and gives it back.
  finish_group :
      (t : LinkTask) (h : Host) (g : GroupTask)
      → holds_links t ≡ false
      → (h' : Host) × Sections L P
          (record { host = h; link = t; group = g })
          (record { host = h'; link = t; group = no_group })
  finish_group t h no_group free = (h, none_yet)
  finish_group t h (locking subject) free =
      (_, and_then (and_then none_yet (create_read subject h t free)) (create_second subject _ h t))
  finish_group t h (creating subject links) free =
      (_, and_then none_yet (create_second subject links h t))

  -- With `self.actors` free, the link task goes on to its end.
  finish_link :
      (t : LinkTask) (h : Host)
      → holds_links t ≡ false
      → (h' : Host) × Sections L P (record { host = h; link = t; group = no_group }) (quiet h')
  finish_link no_link h free = (h, none_yet)
  finish_link (adding ld) h free = let m : true ≡ false = free in cc
  finish_link (deleting ld) h free = let m : true ≡ false = free in cc
  finish_link (putting ld) h free =
      (_, and_then (and_then none_yet (put_second ld h)) (announced ld _ _ _ no_group))
  finish_link (taking ld) h free =
      (_, and_then (and_then none_yet (take_second ld h)) (announced ld _ _ _ no_group))
  finish_link (announcing ld event failure) h free =
      (_, and_then none_yet (announced ld event failure h no_group))

  finish : (s : State) → (h' : Host) × Sections L P s (quiet h')
  finish s =
      let (t, h₁, free, r₁) = unlock s.link s.host s.group in
      let (h₂, r₂) = finish_group t h₁ s.group free in
      let (h₃, r₃) = finish_link t h₂ free in (h₃, and_then_all (and_then_all r₁ r₂) r₃)

  -- However the sections of a link task and of a task that makes a group have been interleaved
  -- since a consistent host, with the locks that they keep from one section to the next, nobody
  -- waits for ever: the sections that are left of the tasks under way can be taken in an order in
  -- which each finds the locks that it needs free, also when one task holds the map of groups
  -- while it waits for the links and the other holds the links; and the host is consistent then.
  pub Sections-settle :
      (h : Host) (s : State)
      → IsConsistent P h
      → Sections L P (quiet h) s
      → (h' : Host) × Sections L P s (quiet h') × IsConsistent P h'
  Sections-settle h s v r =
      let (h', rest) = finish s in
      (h', rest, Sections-IsConsistent P L h h' (and_then_all r rest) v)
