-- ===== src/Tests/Handlers.antt =====
-- Witnesses for the theorems on handler.rs.
use kasmcloud.Prelude.{◌≡◌, refl, sym, ◌↔◌, ◌⊎◌, ap, none, some, List, [], ◌∷◌, Result, ok, err}
use kasmcloud.Map.{lookup}
use kasmcloud.External.{WasmCloudEntity, TargetEntity, ActorIdentifier, TargetInterface}
use kasmcloud.Handler.Capability.{ensure_actor_capability, MayCall, ensure_actor_capability_iff}
use kasmcloud.Host.Links.Table.{find_link}
use kasmcloud.Handler.Target.{resolve_target}
use kasmcloud.Handler.Invoke.{call_operation_with_payload}
use kasmcloud.Handler.Invoke.Safety.{KeepsTarget, Permitted, effects-Permitted}
use kasmcloud.Handler.Bus.{identify_wasmbus_target, set_target, call}
use kasmcloud.Handler.Bus.Targets.{identify-resolves, lookup-set_target}
use kasmcloud.Handler.Bus.Agreement.{Agrees, call-Agrees}
use kasmcloud.Tests.Fixture.{echo_claims, http_entity, handler, shared, lattice}

ensure_actor_capability_iff_example :
    (ensure_actor_capability echo_claims.metadata "wasmcloud:httpserver" ≡ ok tt)
    ↔ MayCall echo_claims.metadata "wasmcloud:httpserver"
ensure_actor_capability_iff_example =
    ensure_actor_capability_iff echo_claims.metadata "wasmcloud:httpserver"

pub lattice-KeepsTarget : KeepsTarget lattice
lattice-KeepsTarget = (λ t ck hk o e op msg hs inv same.
    sym (ap (λ (r : Result _ _). elim r [ ok i ↦ i.target | err _ ↦ e ]) same))

effects-Permitted_example :
    ((call_operation_with_payload lattice handler shared none "http/Serve" (1 ∷ 2 ∷ []) []).1 ≡ [])
    ⊎ Permitted handler shared none "http/Serve"
effects-Permitted_example =
    effects-Permitted lattice handler shared none "http/Serve" (1 ∷ 2 ∷ []) [] lattice-KeepsTarget

call-Agrees_example :
    Agrees lattice handler
      (call_operation_with_payload lattice handler shared none "http/Serve" (1 ∷ 2 ∷ []) [])
      (call lattice handler shared none "http/Serve" (ok (1 ∷ 2 ∷ [])) [])
call-Agrees_example = call-Agrees lattice handler shared none "http/Serve" (1 ∷ 2 ∷ []) []

abbrev http_target : TargetEntity
http_target = identify_wasmbus_target ActorIdentifier.alias shared.links "default" "http"

identify-resolves_example :
    ((e : WasmCloudEntity) × (find_link "http" "default" shared.links ≡ some e)
      × (resolve_target (some http_target) (lookup "http" shared.links) shared.aliases ≡ ok e))
    ⊎ ((find_link "http" "default" shared.links ≡ none)
        × (http_target ≡ TargetEntity.actor (ActorIdentifier.alias "http")))
identify-resolves_example =
    identify-resolves ActorIdentifier.alias shared.links shared.aliases "default" "http"

-- one interface is pointed at another actor, the other one is not
abbrev interfaces : List TargetInterface
interfaces = "WasiBlobstoreBlobstore" ∷ "WasiKeyvalueAtomic" ∷ []

lookup-set_target_example :
    (lookup "WasiKeyvalueAtomic" (set_target (some http_target) interfaces shared).targets
      ≡ some http_target)
    × ((set_target (some http_target) interfaces shared).links ≡ shared.links)
    × ((set_target (some http_target) interfaces shared).aliases ≡ shared.aliases)
lookup-set_target_example =
    lookup-set_target (some http_target) interfaces shared "WasiKeyvalueAtomic"

-- the calls of a target that is found
serves : resolve_target none (lookup "http" shared.links) shared.aliases ≡ ok http_entity
unfolding resolve_target lookup
serves = refl
