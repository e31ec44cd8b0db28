-- ===== src/Controller/Program/Accord.antt =====
-- The links that a started program counts against the definitions of its host.
use kasmcloud.Prelude.{ℕ, String, ◌≡◌, ◌↔◌, ◌∙◌, ap, none, some, [], ok}
use kasmcloud.Map.{lookup}
use kasmcloud.External.{LinkDefinition}
use kasmcloud.External.Lattice.{Lattice}
use kasmcloud.External.Platform.{Platform}
use kasmcloud.External.Clock.{Clock}
use kasmcloud.External.Startup.{Startup}
use kasmcloud.Host.{Host}
use kasmcloud.Host.Links.{hash_of}
use kasmcloud.Host.Startup.{Started}
use kasmcloud.Host.Startup.Keys.{new-IsBare}
use kasmcloud.Controller.{Ctx}
use kasmcloud.Controller.Links.{id_of}
use kasmcloud.Controller.Links.Accord.{Announces, InAccord}
use kasmcloud.Controller.Events.Accorded.{Turns, Turns-InAccord}
use kasmcloud.Controller.Program.{KasmCloudConfig, start}
use kasmcloud.Controller.Program.Start.{start-Begins}

module _ (P : Platform) (Q : LinkDefinition → Type 0) where
  empty-InAccord : InAccord P Q [] []
  unfolding lookup
  empty-InAccord = record {
    backed = λ id ld names e. let m : none ≡ some (ld, names) = e in cc;
    counted = λ key d e. let m : none ≡ some d = e in cc;
  }

module _ (S : Startup) (node : String) (config : KasmCloudConfig) (s : Started) (ctx : Ctx)
    (L : Lattice) (P : Platform) (T : Clock) (width : ℕ) (Q : LinkDefinition → Type 0) where
  -- Given that announcements succeed, and that of the definitions that applied links resolve to
  -- those with the same hash are those with the same id: from the context of a program that has
  -- started, whatever events of links, actors and providers the controllers handle, in any order,
  -- they keep the links that they count in accord with the definitions of the host: each entry has
  -- the name of a link behind it and its definition, which has the id of the entry, stored at the
  -- host under its hash, and each definition of the host has its entry.
  pub start-Turns-InAccord :
      (ctx' : Ctx)
      → Announces L P
      → ((ld d : LinkDefinition) → Q ld → Q d → (hash_of P ld ≡ hash_of P d) ↔ (id_of ld ≡ id_of d))
      → start S node config ≡ ok (s, ctx)
      → Turns L P T width node Q ctx ctx'
      → InAccord P Q ctx'.host.links ctx'.links
  start-Turns-InAccord ctx' announces same h r =
      let b = start-Begins S node config s ctx h in
      let bare = new-IsBare S b.hostname b.settings s b.is_made in
      let stored : ctx.host.links ≡ [] = ap (λ (y : Host). y.links) b.holds ∙ bare.no_links in
      Turns-InAccord L P T width node announces Q same r
        (rw (stored, b.no_links) (empty-InAccord P Q))
