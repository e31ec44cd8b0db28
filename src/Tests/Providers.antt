-- ===== src/Tests/Providers.antt =====
-- Witnesses for the theorems on the host's providers.
use kasmcloud.Prelude.{
  ◌≡◌, ◌⊎◌, refl, ◌==◌, ◌&&◌, if◌then◌else◌, length, none, some, [], ◌∷◌, anyhow, add_context,
}
use kasmcloud.Map.{lookup, insert}
use kasmcloud.Host.{Host, ProviderInstance}
use kasmcloud.Host.Providers.{
  find_instance, new_provider, ensure_provider, set_instance, launch_missing, launch, host_data_for,
  spawn_child, feed, start_provider, stop_provider,
}
use kasmcloud.Host.Providers.Start.{
  IsSpawned, start_provider-keeps, start_provider-runs, start_provider_phantom,
}
use kasmcloud.Host.Providers.Told.{IsTold, start_provider-IsTold}
use kasmcloud.Host.Providers.Stop.{find_instance-stop_provider}
use kasmcloud.Host.Providers.Undone.{start_provider-stop_provider}
use kasmcloud.Tests.Fixture.{http_claims, platform, stuck, empty_host, http_link}

-- the host with a provider under one link name
abbrev serving : Host
serving = (start_provider platform "default" "reg/http:1" empty_host).1

abbrev first : ProviderInstance
first = record { child = record { pid = 7 }; id = "U" }

start_provider-keeps_example :
    find_instance "VHTTP" "default"
      (start_provider platform "public" "reg/http:1" serving).1.providers
    ≡ some first
unfolding start_provider lookup insert ensure_provider launch_missing launch host_data_for
    spawn_child feed set_instance
start_provider-keeps_example =
    start_provider-keeps platform "public" "reg/http:1" serving "VHTTP" "default" first refl

start_provider-runs_example :
    (i : ProviderInstance) × (find_instance "VHTTP" "default" serving.providers ≡ some i)
    × ((find_instance "VHTTP" "default" empty_host.providers ≡ some i)
        ⊎ ((find_instance "VHTTP" "default" empty_host.providers ≡ none)
            × IsSpawned platform "default" "reg/http:1" empty_host http_claims i))
unfolding start_provider lookup insert ensure_provider launch_missing launch host_data_for
    spawn_child feed set_instance
start_provider-runs_example =
    start_provider-runs platform "default" "reg/http:1" empty_host http_claims refl

start_provider_phantom_example :
    (length (start_provider stuck "default" "reg/http:1" empty_host).1.providers ≡ 1)
    × (lookup "VHTTP" (start_provider stuck "default" "reg/http:1" empty_host).1.providers
        ≡ some (new_provider http_claims "reg/http:1"))
unfolding start_provider lookup insert ensure_provider launch_missing launch host_data_for
    spawn_child feed set_instance
start_provider_phantom_example =
    start_provider_phantom stuck "default" "reg/http:1" empty_host "/bin/http" http_claims
      (add_context "failed to spawn provider process" (anyhow "no such file")) refl refl refl

find_instance-stop_provider_example :
    find_instance "VHTTP" "default" (stop_provider platform "default" "VHTTP" serving).1.providers
    ≡ (if "VHTTP" == "VHTTP" && "default" == "default"
        then none
        else find_instance "VHTTP" "default" serving.providers)
find_instance-stop_provider_example =
    find_instance-stop_provider platform "default" "VHTTP" serving "VHTTP" "default"

-- the host with a link to the provider
abbrev expecting : Host
expecting = record empty_host { links = ("MECHOwasmcloud:httpserverdefault", http_link) ∷ [] }

start_provider-IsTold_example :
    IsTold platform http_claims "default" expecting
      (start_provider platform "default" "reg/http:1" expecting).1.trace
unfolding start_provider lookup insert ensure_provider launch_missing launch host_data_for
    spawn_child feed set_instance
start_provider-IsTold_example =
    start_provider-IsTold platform http_claims "default" "reg/http:1" expecting refl refl

start_provider-stop_provider_example :
    find_instance "VHTTP" "default" (stop_provider platform "default" "VHTTP" serving).1.providers
    ≡ find_instance "VHTTP" "default" empty_host.providers
unfolding start_provider lookup insert ensure_provider launch_missing launch host_data_for
    spawn_child feed set_instance
start_provider-stop_provider_example =
    start_provider-stop_provider platform "default" "reg/http:1" empty_host http_claims refl "VHTTP"
      "default" refl
