-- ===== src/Controller/Events/Sound.antt =====
-- Whatever events the controllers are handed, in whatever order, the host stays sound.
use kasmcloud.Prelude.{ℕ, String}
use kasmcloud.External.Lattice.{Lattice}
use kasmcloud.External.Platform.{Platform}
use kasmcloud.External.Clock.{Clock}
use kasmcloud.Host.Tables.{
  IsSound, add_linkdef-IsSound, delete_linkdef-IsSound, start_provider-IsSound,
  stop_provider-IsSound, reconcile_actor-IsSound, remove_actor-IsSound,
}
use kasmcloud.Controller.{Ctx}
use kasmcloud.Controller.Events.Kept.{Reaches, IsKept, Reaches-kept}

module _ (L : Lattice) (P : Platform) where
  pub IsSound-kept : IsKept L P (IsSound P)
  IsSound-kept = record {
    add_linkdef = add_linkdef-IsSound L P;
    delete_linkdef = delete_linkdef-IsSound L P;
    reconcile_actor = λ name ref n h. reconcile_actor-IsSound P h name ref n;
    remove_actor = λ name h. remove_actor-IsSound P h name;
    start_provider = λ link_name ref h. start_provider-IsSound P h link_name ref;
    stop_provider = λ link_name key h. stop_provider-IsSound P h link_name key;
  }

  pub Reaches-IsSound :
      (T : Clock) (width : ℕ) (node : String) {start ctx : Ctx}
      → Reaches L P T width node start ctx
      → IsSound P start.host
      → IsSound P ctx.host
  Reaches-IsSound T width node r v = Reaches-kept L P (IsSound P) IsSound-kept T width node r v
