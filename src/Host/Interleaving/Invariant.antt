-- ===== src/Host/Interleaving/Invariant.antt =====
-- Every section keeps the link tables in order.
use kasmcloud.Prelude.{
  String, ◌≡◌, refl, sym, ◌∙◌, inl, inr, none, some, false, arith, ◌==◌, eq_iff, Bool-cases,
}
use kasmcloud.Map.{Map, lookup, insert}
use kasmcloud.Map.Laws.{
  insert-Distinct, remove-Distinct, lookup-insert, lookup-insert_self, lookup-remove_self,
}
use kasmcloud.External.{LinkDefinition}
use kasmcloud.External.Lattice.{Lattice}
use kasmcloud.External.Platform.{Platform}
use kasmcloud.Handler.{Links}
use kasmcloud.Host.{Host, ActorGroup}
use kasmcloud.Host.Links.{entity_of, link_entity, unlink_entity, get_actor_links, hash_of, announce}
use kasmcloud.Host.Links.Table.{find_link-link_entity, find_link-unlink_entity}
use kasmcloud.Host.Links.View.{find_link-get_actor_links}
use kasmcloud.Host.Links.Step.{insert-AllHashed, remove-AllHashed, lookup-AllHashed}
use kasmcloud.Host.Links.Faults.{announce-links}
use kasmcloud.Host.Actors.Groups.{
  KeepsLinks, set_actor-KeepsLinks, leave_group-KeepsLinks, links-leave_group,
}
use kasmcloud.Host.Interleaving.{
  LinkTask, no_link, adding, deleting, putting, taking, announcing, GroupTask, no_group, locking,
  creating, is_pending, State, new_group_with, put_links, take_links, put_group_link,
  take_group_link, Section, add_lock, put_skip, delete_lock, take_missing, create_read, put_first,
  put_second, take_first, take_second, announced, create_first, create_second, change_actor, leave,
  elsewhere, Sections, none_yet, and_then,
}
use kasmcloud.Host.Interleaving.Tables.{
  HasBegun, HasDrafted, IsOrdered, stored_at-put, stored_at-take, update_links-Matches,
  named-stored,
}

announce-actors :
    (L : Lattice) (P : Platform) (ld : LinkDefinition) (event failure : String) (h : Host)
    → (announce L P ld event failure h).1.actors ≡ h.actors
unfolding announce
announce-actors L P ld event failure h = ground arith

module _ (P : Platform) where
  put_first-IsOrdered :
      (ld : LinkDefinition) (h : Host) (g : GroupTask)
      → lookup (hash_of P ld) h.links ≡ none
      → IsOrdered P (record { host = h; link = adding ld; group = g })
      → IsOrdered P (record { host = put_links P ld h; link = putting ld; group = g })
  put_first-IsOrdered ld h g fresh v = record {
    distinct = insert-Distinct (hash_of P ld) ld h.links v.distinct;
    hashed = insert-AllHashed P ld h.links v.hashed;
    in_step = λ k own there c l other.
        v.in_step k own there c l refl ∙ sym (stored_at-put P k c l ld h.links fresh other);
    begun = lookup-insert_self (hash_of P ld) ld h.links;
    drafted = kept g v.drafted;
  }
    where
      kept :
          (g : GroupTask)
          → HasDrafted P (adding ld) h.links g
          → HasDrafted P (putting ld) (put_links P ld h).links g
      kept no_group d = tt
      kept (locking subject) d = tt
      kept (creating subject own) d =
          λ c l other. d c l refl ∙ sym (stored_at-put P subject c l ld h.links fresh other)

  take_first-IsOrdered :
      (ld stored : LinkDefinition) (h : Host) (g : GroupTask)
      → lookup (hash_of P ld) h.links ≡ some stored
      → IsOrdered P (record { host = h; link = deleting ld; group = g })
      → IsOrdered P (record { host = take_links P ld h; link = taking stored; group = g })
  take_first-IsOrdered ld stored h g there v =
      let hashed = lookup-AllHashed P (hash_of P ld) stored h.links v.hashed there in
      record {
        distinct = remove-Distinct (hash_of P ld) h.links v.distinct;
        hashed = remove-AllHashed P (hash_of P ld) h.links v.hashed;
        in_step = λ k own q c l other.
            v.in_step k own q c l refl
            ∙ sym (stored_at-take P k c l (hash_of P ld) stored h.links hashed there other);
        begun = rw hashed (lookup-remove_self (hash_of P ld) h.links);
        drafted = kept hashed g v.drafted;
      }
    where
      kept :
          hash_of P stored ≡ hash_of P ld
          → (g : GroupTask) → HasDrafted P (deleting ld) h.links g
          → HasDrafted P (taking stored) (take_links P ld h).links g
      kept hashed no_group d = tt
      kept hashed (locking subject) d = tt
      kept hashed (creating subject own) d = λ c l other.
          d c l refl
          ∙ sym (stored_at-take P subject c l (hash_of P ld) stored h.links hashed there other)

  put_second-IsOrdered :
      (ld : LinkDefinition) (event failure : String) (h : Host)
      → IsOrdered P (record { host = h; link = putting ld; group = no_group })
      → IsOrdered P (record {
        host = put_group_link ld h;
        link = announcing ld event failure;
        group = no_group;
      })
  put_second-IsOrdered ld event failure h v = record {
    distinct = v.distinct;
    hashed = v.hashed;
    in_step = λ k own there c l _.
        update_links-Matches P (link_entity ld) ld h (some (entity_of ld))
          (λ c l t. find_link-link_entity c l ld t)
          (λ k c l named. named-stored P ld h.links (some ld) v.begun k c l named ∙ rw named refl)
          v.in_step k own there c l;
    begun = tt;
    drafted = tt;
  }

  take_second-IsOrdered :
      (ld : LinkDefinition) (event failure : String) (h : Host)
      → IsOrdered P (record { host = h; link = taking ld; group = no_group })
      → IsOrdered P (record {
        host = take_group_link ld h;
        link = announcing ld event failure;
        group = no_group;
      })
  take_second-IsOrdered ld event failure h v = record {
    distinct = v.distinct;
    hashed = v.hashed;
    in_step = λ k own there c l _.
        update_links-Matches P (unlink_entity ld) ld h none
          (λ c l t. find_link-unlink_entity c l ld t)
          (λ k c l named. named-stored P ld h.links none v.begun k c l named) v.in_step k own there
          c l;
    begun = tt;
    drafted = tt;
  }

  -- a change that keeps the definitions, and the links of every group that is left
  others-IsOrdered :
      (h h' : Host) (t : LinkTask) (g : GroupTask)
      → h'.links ≡ h.links
      → KeepsLinks h.actors h'.actors
      → IsOrdered P (record { host = h; link = t; group = g })
      → IsOrdered P (record { host = h'; link = t; group = g })
  others-IsOrdered h h' t g links keeps v = record {
    distinct = rw links v.distinct;
    hashed = rw links v.hashed;
    in_step = λ k own there c l other.
        let (own', q, same) = keeps k own there in rw (links, same) (v.in_step k own' q c l other);
    begun = rw links v.begun;
    drafted = rw links v.drafted;
  }

  same-KeepsLinks : (actors actors' : Map ActorGroup) → actors' ≡ actors → KeepsLinks actors actors'
  same-KeepsLinks actors actors' same k g there = (g, rw same at there, refl)

  -- a link task with no change under way, before and after
  idle-IsOrdered :
      (t t' : LinkTask) (h : Host) (g : GroupTask)
      → ((k c l : String) → is_pending t k c l ≡ false)
      → HasBegun P t' h.links
      → IsOrdered P (record { host = h; link = t; group = g })
      → IsOrdered P (record { host = h; link = t'; group = g })
  idle-IsOrdered t t' h g idle begun v = record {
    distinct = v.distinct;
    hashed = v.hashed;
    in_step = λ k own there c l _. v.in_step k own there c l (idle k c l);
    begun = begun;
    drafted = kept g v.drafted;
  }
    where
      kept : (g : GroupTask) → HasDrafted P t h.links g → HasDrafted P t' h.links g
      kept no_group d = tt
      kept (locking subject) d = tt
      kept (creating subject own) d = λ c l _. d c l (idle subject c l)

  create_first-IsOrdered :
      (subject : String) (h : Host) (t : LinkTask)
      → IsOrdered P (record { host = h; link = t; group = no_group })
      → IsOrdered P (record { host = h; link = t; group = locking subject })
  create_first-IsOrdered subject h t v = record {
    distinct = v.distinct;
    hashed = v.hashed;
    in_step = v.in_step;
    begun = v.begun;
    drafted = tt;
  }

  create_read-IsOrdered :
      (subject : String) (h : Host) (t : LinkTask)
      → IsOrdered P (record { host = h; link = t; group = locking subject })
      → IsOrdered P (record {
        host = h;
        link = t;
        group = creating subject (get_actor_links subject h.links);
      })
  create_read-IsOrdered subject h t v = record {
    distinct = v.distinct;
    hashed = v.hashed;
    in_step = v.in_step;
    begun = v.begun;
    drafted = λ c l _. find_link-get_actor_links P subject c l h.links v.distinct v.hashed;
  }

  create_second-IsOrdered :
      (subject : String) (links : Links) (h : Host) (t : LinkTask)
      → IsOrdered P (record { host = h; link = t; group = creating subject links })
      → IsOrdered P (record {
        host = record h { actors = insert subject (new_group_with subject links) h.actors };
        link = t;
        group = no_group;
      })
  create_second-IsOrdered subject links h t v = record {
    distinct = v.distinct;
    hashed = v.hashed;
    in_step = λ k g there c l other. elim (Bool-cases (subject == k)) [
      | inl here ↦
          let same : k ≡ subject = sym ((eq_iff subject k).0 here) in
          let own : g.links ≡ links = ground (
            arith,
            lookup-insert subject k (new_group_with subject links) h.actors,
            eq_iff subject k,
          ) in
          rw (own, same) (v.drafted c l (rw same at other))
      | inr away ↦
          v.in_step k g
            (ground (arith, lookup-insert subject k (new_group_with subject links) h.actors)) c l
            other
    ];
    begun = v.begun;
    drafted = tt;
  }

module _ (L : Lattice) (P : Platform) where
  announced-IsOrdered :
      (ld : LinkDefinition) (event failure : String) (h : Host) (g : GroupTask)
      → IsOrdered P (record { host = h; link = announcing ld event failure; group = g })
      → IsOrdered P
          (record { host = (announce L P ld event failure h).1; link = no_link; group = g })
  announced-IsOrdered ld event failure h g v =
      others-IsOrdered P h _ no_link g (announce-links L P ld event failure h)
        (same-KeepsLinks P h.actors _ (announce-actors L P ld event failure h))
        (record {
          distinct = v.distinct;
          hashed = v.hashed;
          in_step = v.in_step;
          begun = tt;
          drafted = kept g v.drafted;
        })
    where
      kept :
          (g : GroupTask)
          → HasDrafted P (announcing ld event failure) h.links g
          → HasDrafted P no_link h.links g
      kept no_group d = tt
      kept (locking subject) d = tt
      kept (creating subject own) d = d

  pub Section-IsOrdered : {s s' : State} → Section L P s s' → IsOrdered P s → IsOrdered P s'
  Section-IsOrdered (add_lock ld h g) v =
      idle-IsOrdered P no_link (adding ld) h g (λ k c l. refl) tt v
  Section-IsOrdered (put_skip ld stored h g there) v =
      idle-IsOrdered P (adding ld) no_link h g (λ k c l. refl) tt v
  Section-IsOrdered (delete_lock ld h g) v =
      idle-IsOrdered P no_link (deleting ld) h g (λ k c l. refl) tt v
  Section-IsOrdered (take_missing ld h g missing) v =
      idle-IsOrdered P (deleting ld) no_link h g (λ k c l. refl) tt v
  Section-IsOrdered (put_first ld h g fresh) v = put_first-IsOrdered P ld h g fresh v
  Section-IsOrdered (put_second ld h) v = put_second-IsOrdered P ld _ _ h v
  Section-IsOrdered (take_first ld stored h g there) v =
      take_first-IsOrdered P ld stored h g there v
  Section-IsOrdered (take_second ld h) v = take_second-IsOrdered P ld _ _ h v
  Section-IsOrdered (announced ld event failure h g) v = announced-IsOrdered ld event failure h g v
  Section-IsOrdered (create_first subject h t new) v = create_first-IsOrdered P subject h t v
  Section-IsOrdered (create_read subject h t free) v = create_read-IsOrdered P subject h t v
  Section-IsOrdered (create_second subject links h t) v =
      create_second-IsOrdered P subject links h t v
  Section-IsOrdered (change_actor subject name a h t g) v =
      others-IsOrdered P h _ t g refl (set_actor-KeepsLinks subject name a h.actors) v
  Section-IsOrdered (leave key name h t) v =
      others-IsOrdered P h _ t no_group (links-leave_group key name h)
        (leave_group-KeepsLinks key name h) v
  Section-IsOrdered (elsewhere h h' t g links actors) v =
      others-IsOrdered P h h' t g links (same-KeepsLinks P h.actors h'.actors actors) v

  pub Sections-IsOrdered : {s s' : State} → Sections L P s s' → IsOrdered P s → IsOrdered P s'
  Sections-IsOrdered none_yet v = v
  Sections-IsOrdered (and_then r s) v = Section-IsOrdered s (Sections-IsOrdered r v)
