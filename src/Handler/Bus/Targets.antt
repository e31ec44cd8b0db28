-- ===== src/Handler/Bus/Targets.antt =====
-- What an actor's choice of a target means for its later calls.
use kasmcloud.Prelude.{
  String, ◌≡◌, refl, ◌⊎◌, inl, inr, Option, none, some, List, [], ◌∷◌, ok, arith, ◌==◌, any,
  if◌then◌else◌, Option-cases,
}
use kasmcloud.Map.{Map, lookup, insert, remove}
use kasmcloud.Map.Laws.{lookup-insert, lookup-remove}
use kasmcloud.External.{WasmCloudEntity, TargetEntity, ActorIdentifier, TargetInterface}
use kasmcloud.Handler.{Shared, Links}
use kasmcloud.Host.Links.Table.{find_link}
use kasmcloud.Handler.Target.{resolve_target}
use kasmcloud.Handler.Bus.{identify_wasmbus_target, insert_all, remove_all, set_target}

lookup-insert_all :
    (is : List TargetInterface) (target : TargetEntity) (m : Map TargetEntity) (j : String)
    → lookup j (insert_all is target m) ≡ (if any (λ i. i == j) is then some target else lookup j m)
unfolding insert_all
lookup-insert_all [] target m j = refl
lookup-insert_all (i ∷ is) target m j =
    ground (arith, lookup-insert_all is target (insert i target m) j, lookup-insert i j target m)

lookup-remove_all :
    (is : List TargetInterface) (m : Map TargetEntity) (j : String)
    → lookup j (remove_all is m) ≡ (if any (λ i. i == j) is then none else lookup j m)
unfolding remove_all
lookup-remove_all [] m j = refl
lookup-remove_all (i ∷ is) m j =
    ground (arith, lookup-remove_all is (remove i m) j, lookup-remove i j m)

-- After set_target, the interfaces named have the new target, or none where none was given, and
-- every other interface has the target that it had; the links and the aliases are untouched.
pub lookup-set_target :
    (target : Option TargetEntity) (is : List TargetInterface) (shared : Shared) (j : String)
    → (lookup j (set_target target is shared).targets
        ≡ (if any (λ i. i == j) is then target else lookup j shared.targets))
      × ((set_target target is shared).links ≡ shared.links)
      × ((set_target target is shared).aliases ≡ shared.aliases)
unfolding set_target
lookup-set_target none is shared j = (lookup-remove_all is shared.targets j, refl, refl)
lookup-set_target (some target) is shared j =
    (lookup-insert_all is target shared.targets j, refl, refl)

module _ (to_identifier : String → ActorIdentifier) (links : Links) (aliases : Map WasmCloudEntity)
    (binding namespace : String) where
  abbrev identified : TargetEntity
  identified = identify_wasmbus_target to_identifier links binding namespace

  -- Whatever conversion of texts to actor identifiers the runtime has: identify_wasmbus_target
  -- takes a target for a link exactly where the links have an entity under that namespace and
  -- binding, and then the target resolves, in the same links, to that entity; otherwise it is the
  -- actor that the conversion makes of the namespace.
  pub identify-resolves :
      ((e : WasmCloudEntity) × (find_link namespace binding links ≡ some e)
        × (resolve_target (some identified) (lookup namespace links) aliases ≡ ok e))
      ⊎ ((find_link namespace binding links ≡ none)
          × (identified ≡ TargetEntity.actor (to_identifier namespace)))
  unfolding identify_wasmbus_target resolve_target
  identify-resolves = elim (Option-cases (lookup namespace links)) [
    | inl e ↦ inr (ground arith, ground arith)
    | inr (bindings, e) ↦ elim (Option-cases (lookup binding bindings)) [
      | inl f ↦ inr (ground arith, ground arith)
      | inr (ent, f) ↦ inl (ent, ground arith, ground arith)
    ]
  ]
