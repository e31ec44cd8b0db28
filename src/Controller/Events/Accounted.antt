-- ===== src/Controller/Events/Accounted.antt =====
-- The instances that the host holds and counts, against those that serve.
use kasmcloud.Prelude.{ℕ, ◌+◌, String, ◌≡◌}
use kasmcloud.External.Lattice.{Lattice}
use kasmcloud.External.Platform.{Platform}
use kasmcloud.External.Clock.{Clock}
use kasmcloud.Host.{Host}
use kasmcloud.Host.Actors.{stats}
use kasmcloud.Host.Actors.Accounting.{served, stopped}
use kasmcloud.Host.Actors.Accounting.Balance.{held, IsBalanced, Subscribes, count_groups-total}
use kasmcloud.Host.Actors.Accounting.Reconciled.{reconcile_actor-IsBalanced}
use kasmcloud.Host.Actors.Accounting.Removed.{remove_actor-IsBalanced}
use kasmcloud.Host.Actors.Accounting.Elsewhere.{
  add_linkdef-IsBalanced, delete_linkdef-IsBalanced, start_provider-IsBalanced,
  stop_provider-IsBalanced,
}
use kasmcloud.Controller.{Ctx}
use kasmcloud.Controller.Events.Kept.{Reaches, IsKept, Reaches-kept}

stats-held : (h : Host) → (stats h).actor_instance_count ≡ held (λ _. 1) h
unfolding stats
stats-held h = count_groups-total h.actors

module _ (L : Lattice) (P : Platform) (T : Clock) (width : ℕ) (node : String)
    (subscribes : Subscribes P) (mark : String → ℕ) where
  IsBalanced-kept : IsKept L P (IsBalanced mark)
  IsBalanced-kept = record {
    add_linkdef = add_linkdef-IsBalanced mark L P;
    delete_linkdef = delete_linkdef-IsBalanced mark L P;
    reconcile_actor = λ name ref n h. reconcile_actor-IsBalanced mark P name ref n h subscribes;
    remove_actor = remove_actor-IsBalanced mark;
    start_provider = start_provider-IsBalanced mark L P;
    stop_provider = stop_provider-IsBalanced mark L P;
  }

  pub Reaches-accounted :
      {start ctx : Ctx}
      → Reaches L P T width node start ctx
      → IsBalanced mark start.host
      → (served mark ctx.host.trace ≡ held mark ctx.host + stopped mark ctx.host.trace)
        × ((stats ctx.host).actor_instance_count ≡ held (λ _. 1) ctx.host)
  Reaches-accounted {ctx = ctx} r v = (
    (Reaches-kept L P (IsBalanced mark) IsBalanced-kept T width node r v).balance,
    stats-held ctx.host,
  )
