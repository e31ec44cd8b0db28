-- ===== src/Tests/Actors.antt =====
-- Witnesses for the theorems on the host's actors.
use kasmcloud.Prelude.{◌≡◌, refl, ◌==◌, if◌then◌else◌, none, [], ◌∷◌, some, ok}
use kasmcloud.Map.{lookup, insert}
use kasmcloud.Host.{Host}
use kasmcloud.Host.Links.{get_actor_links}
use kasmcloud.Host.Links.Consistency.{IsConsistent}
use kasmcloud.Host.Actors.{
  find_actor, reconcile_actor, remove_actor, fetch_actor, check_key, register_key, ensure_group,
  scale_actor, start_missing, start_actor, instantiate_actor, instantiate_many, instantiate_one,
  set_actor, resize, scale_up, scale_down, abort_all,
}
use kasmcloud.Host.Actors.Scaling.{replicas, reconcile_actor-replicas}
use kasmcloud.Host.Actors.Keys.{KeysMatch, reconcile_actor-KeysMatch}
use kasmcloud.Host.Actors.Groups.{reconcile_actor-IsConsistent}
use kasmcloud.Host.Actors.Removal.{find_actor-remove_actor}
use kasmcloud.Host.Actors.Settled.{reconcile_actor_settles}
use kasmcloud.Host.Actors.Rollout.{Kept, reconcile_actor-Kept}
use kasmcloud.Host.{Actor, ActorGroup}
use kasmcloud.Tests.Fixture.{echo_claims, handler, platform, empty_host}
use kasmcloud.Tests.Linkdefs.{empty_host-IsConsistent}

-- the host with two instances of one actor
abbrev pub running : Host
running = (reconcile_actor platform "echo" "reg/echo:1" 2 empty_host).1

pub empty_host-KeysMatch : KeysMatch empty_host
unfolding lookup
empty_host-KeysMatch = record { placed = λ k n a e. absurd (cc) }

pub running-KeysMatch : KeysMatch running
running-KeysMatch =
    reconcile_actor-KeysMatch platform "echo" "reg/echo:1" 2 empty_host empty_host-KeysMatch

pub running-IsConsistent : IsConsistent platform running
running-IsConsistent =
    reconcile_actor-IsConsistent platform "echo" "reg/echo:1" 2 empty_host empty_host-IsConsistent

reconcile_actor-replicas_example :
    replicas "MECHO" "echo" (reconcile_actor platform "echo" "reg/echo:1" 1 running).1 ≡ 1
unfolding reconcile_actor lookup fetch_actor check_key register_key ensure_group scale_actor
    start_missing start_actor instantiate_actor instantiate_many instantiate_one set_actor resize
    scale_up scale_down abort_all get_actor_links insert
reconcile_actor-replicas_example =
    reconcile_actor-replicas platform "echo" "reg/echo:1" 1 running echo_claims refl

find_actor-remove_actor_example :
    (find_actor "MECHO" "echo" (remove_actor "echo" running).1.actors
      ≡ (if "echo" == "echo" then none else find_actor "MECHO" "echo" running.actors))
    × (lookup "echo" (remove_actor "echo" running).1.actor_keys ≡ none)
find_actor-remove_actor_example =
    find_actor-remove_actor "echo" running running-KeysMatch "MECHO" "echo"

-- the actor as it was started
abbrev pub started : Actor
started = record {
  image_ref = "reg/echo:1";
  handler = handler;
  pool_size = 2;
  instances =
      record { id = "U"; handler = handler; valid_issuers = "CCLUSTER" ∷ [] }
      ∷ record { id = "U"; handler = handler; valid_issuers = "CCLUSTER" ∷ [] }
      ∷ [];
}

reconcile_actor-Kept_example :
    Kept "MECHO" "echo" started (reconcile_actor platform "echo" "reg/echo:2" 3 running).1
unfolding reconcile_actor lookup fetch_actor check_key register_key ensure_group scale_actor
    start_missing start_actor instantiate_actor instantiate_many instantiate_one set_actor resize
    scale_up scale_down abort_all get_actor_links insert
reconcile_actor-Kept_example =
    reconcile_actor-Kept platform "echo" "reg/echo:2" 3 running echo_claims started refl refl

reconcile_actor_settles_example :
    reconcile_actor platform "echo" "reg/echo:1" 2 running ≡ (ok echo_claims, running)
unfolding reconcile_actor lookup fetch_actor check_key register_key ensure_group scale_actor
    start_missing start_actor instantiate_actor instantiate_many instantiate_one set_actor resize
    scale_up scale_down abort_all get_actor_links insert
reconcile_actor_settles_example =
    reconcile_actor_settles platform "echo" "reg/echo:1" 2 empty_host echo_claims refl refl

-- the group of the actor that runs
abbrev pub running_group : ActorGroup
running_group = record { public_key = "MECHO"; actors = ("echo", started) ∷ []; links = [] }

pub running-group : lookup "MECHO" running.actors ≡ some running_group
unfolding reconcile_actor lookup fetch_actor check_key register_key ensure_group scale_actor
    start_missing start_actor instantiate_actor instantiate_many instantiate_one set_actor resize
    scale_up scale_down abort_all get_actor_links insert
running-group = refl

pub running-links : running.links ≡ []
unfolding reconcile_actor lookup fetch_actor check_key register_key ensure_group scale_actor
    start_missing start_actor instantiate_actor instantiate_many instantiate_one set_actor resize
    scale_up scale_down abort_all get_actor_links insert
running-links = refl
