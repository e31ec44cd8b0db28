-- ===== src/Tests/Events.antt =====
-- Witnesses for the theorems on the reconcilers of actors and providers, and on all events.
use kasmcloud.Prelude.{String, ok, none, ◌∷◌, pos, ◌≡◌, refl, some, []}
use kasmcloud.Map.{Map, lookup, insert}
use kasmcloud.Map.Orders.{swapped}
use kasmcloud.External.{ProviderMetadata}
use kasmcloud.External.Platform.{Platform}
use kasmcloud.Apis.{Actor, Provider}
use kasmcloud.Host.Actors as HostActors
use kasmcloud.Host.Actors.Scaling.{replicas}
use kasmcloud.Host.Providers.{
  ensure_provider, set_instance, launch_missing, launch, host_data_for, spawn_child, feed,
  start_provider,
}
use kasmcloud.Controller.{Ctx}
use kasmcloud.Controller.Status.{actor_status_of, provider_status_of}
use kasmcloud.Controller.Workloads.{reconcile_provider}
use kasmcloud.Controller.Workloads.Reports.{iterated, reconcile_provider_quiet}
use kasmcloud.Tests.Fixture.{echo_claims, http_claims, platform, clock, empty_host}

abbrev start : Ctx
start = record { host = empty_host; links = []; patches = [] }

abbrev pub echo : Actor
echo = record {
  name = "echo";
  spec = record { host = "host"; image = "reg/echo:1"; replicas = pos 2 };
  status = some (actor_status_of clock (pos 2) echo_claims);
}

-- a provider for two architectures
abbrev metadata : ProviderMetadata
metadata = record {
  name = some "http";
  capid = "wasmcloud:httpserver";
  vendor = "wasmCloud";
  rev = none;
  ver = none;
  target_hashes = ("x86_64-linux", "1") ∷ ("aarch64-linux", "2") ∷ [];
}

abbrev built : Platform
built = record platform {
  fetch_provider = λ r l t. ok ("/bin/http", record http_claims { metadata = some metadata });
}

abbrev other_order : Map String
other_order = ("aarch64-linux", "2") ∷ ("x86_64-linux", "1") ∷ []

abbrev http : Provider
http = record {
  name = "http";
  spec = record { host = "host"; image = "reg/http:1"; link = "default" };
  status = some (
      provider_status_of clock
        (iterated (record http_claims { metadata = some metadata }) metadata other_order));
}

reconcile_provider_quiet_example : (reconcile_provider built clock 64 http start).1.patches ≡ []
unfolding start_provider lookup insert ensure_provider launch_missing launch host_data_for
    spawn_child feed set_instance
reconcile_provider_quiet_example =
    reconcile_provider_quiet built clock 64 start http
      (record http_claims { metadata = some metadata }) metadata other_order refl refl
      (swapped ("x86_64-linux", "1") ("aarch64-linux", "2") []) refl
