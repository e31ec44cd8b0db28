-- ===== src/Tests/Interleaving.antt =====
-- Witnesses for the theorems on interleaved tasks.
use kasmcloud.Prelude.{◌≡◌, refl, [], ◌∷◌}
use kasmcloud.Map.{lookup, insert, remove}
use kasmcloud.Host.{Host}
use kasmcloud.Host.Links.{get_actor_links, announce}
use kasmcloud.Host.Links.Consistency.{IsConsistent}
use kasmcloud.Host.Actors.{
  reconcile_actor, fetch_actor, check_key, register_key, ensure_group, scale_actor, start_missing,
  start_actor, instantiate_actor, instantiate_many, instantiate_one, set_actor, resize, scale_up,
  scale_down, abort_all, remove_actor, leave_group, without_actor, put_group, stop_actor,
}
use kasmcloud.Host.Actors.Cases.{prepared}
use kasmcloud.Host.Actors.Scaling.{replicas}
use kasmcloud.Host.Actors.Accounting.{Serves}
use kasmcloud.Host.Interleaving.{
  State, no_link, adding, putting, no_group, locking, creating, add_lock, create_read, put_links,
  put_group_link, new_group_with, Sections, none_yet, and_then, put_first, put_second, announced,
  create_first, create_second,
}
use kasmcloud.Host.Interleaving.Completion.{quiet, Sections-IsConsistent, Sections-settle}
use kasmcloud.Host.Interleaving.Races.{removed_meanwhile}
use kasmcloud.Tests.Fixture.{echo_claims, lattice, platform, empty_host, http_link}
use kasmcloud.Tests.Linkdefs.{empty_host-IsConsistent}
use kasmcloud.Tests.Actors.{started}

abbrev stored : Host
stored = put_links platform http_link empty_host

-- the link task has its definition stored and waits for the map of groups, which a task holds that
-- has read the links from before
abbrev reading : State
reading = record {
  host = empty_host;
  link = no_link;
  group = creating "MECHO" (get_actor_links "MECHO" []);
}

to_reading : Sections lattice platform (quiet empty_host) reading
unfolding lookup
to_reading =
    and_then (and_then none_yet (create_first "MECHO" empty_host no_link refl))
      (create_read "MECHO" empty_host no_link refl)

abbrev caught : State
caught = record { host = stored; link = putting http_link; group = reading.group }

to_caught : Sections lattice platform (quiet empty_host) caught
unfolding lookup
to_caught =
    and_then (and_then to_reading (add_lock http_link empty_host reading.group))
      (put_first http_link empty_host reading.group refl)

-- the map of groups is held by a task that waits for the links, and the links are held by another
abbrev waiting : State
waiting = record { host = empty_host; link = adding http_link; group = locking "MECHO" }

to_waiting : Sections lattice platform (quiet empty_host) waiting
unfolding lookup
to_waiting =
    and_then (and_then none_yet (create_first "MECHO" empty_host no_link refl))
      (add_lock http_link empty_host (locking "MECHO"))

Sections-settle_example :
    (h : Host) × Sections lattice platform waiting (quiet h) × IsConsistent platform h
Sections-settle_example =
    Sections-settle lattice platform empty_host waiting empty_host-IsConsistent to_waiting

-- the group is put into the map, and the link into the group
abbrev grouped : Host
grouped = record stored {
  actors = insert "MECHO" (new_group_with "MECHO" (get_actor_links "MECHO" [])) stored.actors;
}

abbrev finished : Host
finished =
    (announce lattice platform http_link "put" "failed to publish link deinition"
      (put_group_link http_link grouped)).1

Sections-IsConsistent_example : IsConsistent platform finished
Sections-IsConsistent_example =
    Sections-IsConsistent platform lattice empty_host finished
      (and_then
        (and_then
          (and_then to_caught
            (create_second "MECHO" (get_actor_links "MECHO" []) stored (putting http_link)))
          (put_second http_link grouped))
        (announced http_link _ _ (put_group_link http_link grouped) no_group))
      empty_host-IsConsistent

-- another actor of the same image runs, alone in its group
abbrev other_runs : Host
other_runs = (reconcile_actor platform "other" "reg/echo:1" 2 empty_host).1

removed_meanwhile_example :
    let left = (remove_actor "other" (prepared "echo" "MECHO" other_runs)).1 in
    let scaled = scale_actor platform echo_claims "echo" "reg/echo:1" 1 left in
    (replicas "MECHO" "echo" scaled.1 ≡ 0) × Serves 1 left.trace scaled.1.trace
unfolding reconcile_actor lookup fetch_actor check_key register_key ensure_group scale_actor
    start_missing start_actor instantiate_actor instantiate_many instantiate_one set_actor resize
    scale_up scale_down abort_all get_actor_links insert remove_actor leave_group without_actor
    put_group stop_actor remove
removed_meanwhile_example =
    removed_meanwhile platform echo_claims "echo" "reg/echo:1" 0 other_runs "other" started
      (record { public_key = "MECHO"; actors = ("other", started) ∷ []; links = [] }) refl refl refl
      refl
