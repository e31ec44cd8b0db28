-- ===== src/Host/Interleaving.antt =====
-- The link and group operations of lib.rs in the sections between which their tasks may be
-- interleaved, with the locks that a task holds from one section to the next. A link task unlocks
-- `self.links` before it takes `self.actors`; a task that makes a group keeps `self.actors` locked
-- while it waits for `self.links`, reads them and puts the group in. Link tasks take turns, by the
-- lock on the controller's links.
pub mod Tables
pub mod Invariant
pub mod Completion
pub mod Races
use kasmcloud.Prelude.{String, ◌≡◌, refl, Bool, true, false, Option, none, some, List, [], ◌++◌}
use kasmcloud.Map.{Map, lookup, insert, remove}
use kasmcloud.External.{LinkDefinition}
use kasmcloud.External.Effects.{Trace}
use kasmcloud.External.Lattice.{Lattice}
use kasmcloud.External.Platform.{Platform}
use kasmcloud.Handler.{Links}
use kasmcloud.Host.{Host, Actor, ActorGroup}
use kasmcloud.Host.Links.{
  link_entity, unlink_entity, get_actor_links, update_links, hash_of, announce, store_link,
  drop_link,
}
use kasmcloud.Host.Links.View.{names}
use kasmcloud.Host.Actors.{set_actor, leave_group}

module _ (P : Platform) where
  abbrev pub put_links : LinkDefinition → Host → Host
  put_links ld h = record h { links = insert (hash_of P ld) ld h.links }

  abbrev pub take_links : LinkDefinition → Host → Host
  take_links ld h = record h { links = remove (hash_of P ld) h.links }

abbrev pub put_group_link : LinkDefinition → Host → Host
put_group_link ld h = record h { actors = update_links (link_entity ld) ld.actor_id h.actors }

abbrev pub take_group_link : LinkDefinition → Host → Host
take_group_link ld h = record h { actors = update_links (unlink_entity ld) ld.actor_id h.actors }

abbrev pub new_group_with : String → Links → ActorGroup
new_group_with subject links = record { public_key = subject; actors = []; links = links }

-- Without interleaving, the sections make up the operations.
store_link-sections :
    (L : Lattice) (P : Platform) (ld : LinkDefinition) (h : Host)
    → store_link L P ld h ≡ put_group_link ld (put_links P ld h)
unfolding store_link
store_link-sections L P ld h = refl

drop_link-sections :
    (L : Lattice) (P : Platform) (ld : LinkDefinition) (h : Host)
    → drop_link L P (hash_of P ld) ld h ≡ take_group_link ld (take_links P ld h)
unfolding drop_link
drop_link-sections L P ld h = refl

-- Where the link task is that holds the controller's lock.
pub data LinkTask : Type 0 where
  no_link : LinkTask
  -- with `self.links` locked to write
  adding : LinkDefinition → LinkTask
  deleting : LinkDefinition → LinkTask
  -- with no lock of the host
  putting : LinkDefinition → LinkTask
  taking : LinkDefinition → LinkTask
  announcing : LinkDefinition → String → String → LinkTask

-- Where the task is that holds `self.actors` to write, if any does.
pub data GroupTask : Type 0 where
  no_group : GroupTask
  -- it waits for `self.links`
  locking : String → GroupTask
  -- it has read them
  creating : String → Links → GroupTask

pub record State : Type 0 where
  pub host : Host
  pub link : LinkTask
  pub group : GroupTask

-- The slot is between the two tables.
abbrev pub is_pending : LinkTask → String → String → String → Bool
is_pending (putting ld) k c l = names k c l ld
is_pending (taking ld) k c l = names k c l ld
is_pending _ k c l = false

abbrev pub holds_links : LinkTask → Bool
holds_links (adding ld) = true
holds_links (deleting ld) = true
holds_links _ = false

module _ (L : Lattice) (P : Platform) where
  pub data Section : State → State → Type 0 where
    -- `add_linkdef`
    add_lock :
        (ld : LinkDefinition) (h : Host) (g : GroupTask)
        → Section
            (record { host = h; link = no_link; group = g })
            (record { host = h; link = adding ld; group = g })
    put_skip :
        (ld stored : LinkDefinition) (h : Host) (g : GroupTask)
        → lookup (hash_of P ld) h.links ≡ some stored
        → Section
            (record { host = h; link = adding ld; group = g })
            (record { host = h; link = no_link; group = g })
    put_first :
        (ld : LinkDefinition) (h : Host) (g : GroupTask)
        → lookup (hash_of P ld) h.links ≡ none
        → Section
            (record { host = h; link = adding ld; group = g })
            (record { host = put_links P ld h; link = putting ld; group = g })
    put_second :
        (ld : LinkDefinition) (h : Host)
        → Section
            (record { host = h; link = putting ld; group = no_group })
            (record {
              host = put_group_link ld h;
              link = announcing ld "put" "failed to publish link deinition";
              group = no_group;
            })
    -- `delete_linkdef`, of the definition that is stored under the hash
    delete_lock :
        (ld : LinkDefinition) (h : Host) (g : GroupTask)
        → Section
            (record { host = h; link = no_link; group = g })
            (record { host = h; link = deleting ld; group = g })
    take_missing :
        (ld : LinkDefinition) (h : Host) (g : GroupTask)
        → lookup (hash_of P ld) h.links ≡ none
        → Section
            (record { host = h; link = deleting ld; group = g })
            (record { host = h; link = no_link; group = g })
    take_first :
        (ld stored : LinkDefinition) (h : Host) (g : GroupTask)
        → lookup (hash_of P ld) h.links ≡ some stored
        → Section
            (record { host = h; link = deleting ld; group = g })
            (record { host = take_links P ld h; link = taking stored; group = g })
    take_second :
        (ld : LinkDefinition) (h : Host)
        → Section
            (record { host = h; link = taking ld; group = no_group })
            (record {
              host = take_group_link ld h;
              link = announcing ld "del" "failed to publish link definition deletion";
              group = no_group;
            })
    announced :
        (ld : LinkDefinition) (event failure : String) (h : Host) (g : GroupTask)
        → Section
            (record { host = h; link = announcing ld event failure; group = g })
            (record { host = (announce L P ld event failure h).1; link = no_link; group = g })
    -- `reconcile_actor`, for a public key without a group
    create_first :
        (subject : String) (h : Host) (t : LinkTask)
        → lookup subject h.actors ≡ none
        → Section
            (record { host = h; link = t; group = no_group })
            (record { host = h; link = t; group = locking subject })
    create_read :
        (subject : String) (h : Host) (t : LinkTask)
        → holds_links t ≡ false
        → Section
            (record { host = h; link = t; group = locking subject })
            (record {
              host = h;
              link = t;
              group = creating subject (get_actor_links subject h.links);
            })
    create_second :
        (subject : String) (links : Links) (h : Host) (t : LinkTask)
        → Section
            (record { host = h; link = t; group = creating subject links })
            (record {
              host = record h { actors = insert subject (new_group_with subject links) h.actors };
              link = t;
              group = no_group;
            })
    -- `reconcile_actor`, in a group that it has: the actor's entry or its instances
    change_actor :
        (subject name : String) (a : Actor) (h : Host) (t : LinkTask) (g : GroupTask)
        → Section
            (record { host = h; link = t; group = g })
            (record {
              host = record h { actors = set_actor subject name a h.actors };
              link = t;
              group = g;
            })
    -- `remove_actor`, with `self.actors` locked
    leave :
        (key name : String) (h : Host) (t : LinkTask)
        → Section
            (record { host = h; link = t; group = no_group })
            (record { host = leave_group key name h; link = t; group = no_group })
    -- all that changes other tables: keys, providers, what is done outside
    elsewhere :
        (h h' : Host) (t : LinkTask) (g : GroupTask)
        → h'.links ≡ h.links
        → h'.actors ≡ h.actors
        → Section
            (record { host = h; link = t; group = g })
            (record { host = h'; link = t; group = g })

  pub data Sections (start : State) : State → Type 0 where
    none_yet : Sections start start
    and_then : {s s' : State} → Sections start s → Section s s' → Sections start s'
