-- ===== src/Handler/Target.antt =====
-- `resolve_target` of handler.rs.
use kasmcloud.Prelude.{String, Option, none, some, Result, Error, context_none, unwrap_or, ok}
use kasmcloud.Map.{Map, lookup}
use kasmcloud.External.{WasmCloudEntity, TargetEntity, ActorIdentifier}
use kasmcloud.Handler.{entity_of_key}

abbrev pub default_link_name : String
default_link_name = "default"

abbrev target_in : Option (Map WasmCloudEntity) → String → Option WasmCloudEntity
target_in none name = none
target_in (some targets) name = lookup name targets

unfoldable pub resolve_target :
    Option TargetEntity
    → Option (Map WasmCloudEntity)
    → Map WasmCloudEntity
    → Result Error WasmCloudEntity
resolve_target none links aliases =
    context_none "link not found" (target_in links default_link_name)
resolve_target (some (TargetEntity.link name)) links aliases =
    context_none "link not found" (target_in links (unwrap_or name default_link_name))
resolve_target (some (TargetEntity.actor (ActorIdentifier.key k))) links aliases =
    ok (entity_of_key k)
resolve_target (some (TargetEntity.actor (ActorIdentifier.alias a))) links aliases =
    context_none "unknown actor call alias" (lookup a aliases)
