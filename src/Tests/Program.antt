-- ===== src/Tests/Program.antt =====
-- Witnesses for the theorems on the start of the program.
use kasmcloud.Prelude.{
  String, ◌==◌, if◌then◌else◌, ℕ, ◌+◌, ◌≡◌, refl, true, false, none, some, [], ◌∷◌, ok, err,
}
use kasmcloud.External.{KeyPair, KeyPairType}
use kasmcloud.External.Startup.{Startup, KubeError}
use kasmcloud.Host.{NatsConfig, HostConfig}
use kasmcloud.Host.Startup.{Client, Started, bare_host, new, connect_nats, connections}
use kasmcloud.Host.Startup.Keys.{WellMade}
use kasmcloud.Host.Actors.{stats}
use kasmcloud.Host.Actors.Accounting.{served, stopped}
use kasmcloud.Host.Actors.Accounting.Balance.{held}
use kasmcloud.Host.Tables.{IsSound}
use kasmcloud.Controller.{Ctx}
use kasmcloud.Controller.Events.{apply, on_actor, on_link}
use kasmcloud.Controller.Events.Kept.{Reaches, here, after, link_event, actor_event}
use kasmcloud.Controller.Program.{
  KasmCloudConfig, get_hostname, host_config, create_host_resource, start,
}
use kasmcloud.Controller.Program.Start.{
  Begins, start-WellMade, start-Reaches-IsSound, start-Reaches-accounted,
}
use kasmcloud.Controller.Workloads.{update_host_status}
use kasmcloud.Tests.Fixture.{lattice, platform, clock}
use kasmcloud.Tests.Resources.{cluster, first_link}
use kasmcloud.Tests.Events.{echo}

abbrev pub startup : Startup
startup = record {
  new_key = λ t. record { public_key = "FRESH"; seed = ok "SEED"; key_pair_type = t };
  from_seed = λ s. ok (record { public_key = s; seed = ok s; key_pair_type = KeyPairType.server });
  parse_url = λ s. ok s;
  port_text = λ n. "4222";
  parse_level = λ s. ok s;
  generate_name = some "quiet-river";
  failed_comparison = λ text left right. text;
  build_runtime = ok tt;
  connect = λ options url. ok tt;
  rpc_first = true;
  try_default = ok tt;
  create_host = λ name. err (KubeError.api "AlreadyExists" "the host is there");
  patch_status = λ name. ok tt;
}

abbrev pub config : KasmCloudConfig
config = record {
  temporary = false;
  host_name = some "host";
  nats_host = "127.0.0.1";
  nats_port = 4222;
  nats_jwt = some "JWT";
  nats_seed = some "SUNATS";
  js_domain = none;
  host_seed = some "NHOST";
  cluster_seed = none;
  cluster_issuers = some ("COTHER" ∷ []);
  log_level = "info";
  enable_structured_logging = false;
  otel_traces_exporter = none;
  otel_exporter_otlp_endpoint = none;
}

abbrev nats_key : KeyPair
nats_key = record { public_key = "SUNATS"; seed = ok "SUNATS"; key_pair_type = KeyPairType.server }

abbrev rpc_config : NatsConfig
rpc_config = record {
  url = "nats://127.0.0.1:4222";
  timeout = some 2000;
  jwt = some "JWT";
  key = some nats_key;
  tls = false;
}

abbrev settings : HostConfig
settings = record {
  allow_file_load = true;
  rpc_config = rpc_config;
  prov_rpc_config = record rpc_config { timeout = none };
  lattice_prefix = "default";
  js_domain = none;
  host_key =
      some (record { public_key = "NHOST"; seed = ok "NHOST"; key_pair_type = KeyPairType.server });
  cluster_key = none;
  cluster_issuers = some ("COTHER" ∷ []);
  log_level = some "info";
}

abbrev client : ℕ → Client
client n = record {
  options = record { require_tls = false; auth = some ("JWT", nats_key); request_timeout = some n };
  url = "nats://127.0.0.1:4222";
}

abbrev pub started : Started
started = record {
  host =
      bare_host "host" settings
        (record { public_key = "FRESH"; seed = ok "SEED"; key_pair_type = KeyPairType.cluster })
        (record { public_key = "NHOST"; seed = ok "NHOST"; key_pair_type = KeyPairType.server });
  rpc_nats = client 2000;
  prov_rpc_nats = record {
    options = record { require_tls = false; auth = some ("JWT", nats_key); request_timeout = none };
    url = "nats://127.0.0.1:4222";
  };
}

abbrev pub first_ctx : Ctx
first_ctx = update_host_status "node" (record { host = started.host; links = []; patches = [] })

pub starts : start startup "node" config ≡ ok (started, first_ctx)
unfolding start get_hostname host_config create_host_resource new connections connect_nats
    update_host_status
starts = refl

start-WellMade_example :
    (b : Begins startup "node" config started first_ctx) × WellMade b.hostname b.settings started
start-WellMade_example = start-WellMade startup "node" config started first_ctx (λ t. refl) starts

-- an actor is scaled, and then a link to it is made
abbrev pub with_actor : Ctx
with_actor = (on_actor lattice platform clock 64 "node" (apply echo) first_ctx).1

abbrev with_link : Ctx
with_link = (on_link lattice platform clock 64 "node" cluster (apply first_link) with_actor).1

reached : Reaches lattice platform clock 64 "node" first_ctx with_link
reached =
    after (after here (actor_event (apply echo) first_ctx))
      (link_event cluster (apply first_link) with_actor)

start-Reaches-IsSound_example : IsSound platform with_link.host
start-Reaches-IsSound_example =
    start-Reaches-IsSound startup "node" config started first_ctx lattice platform clock 64
      with_link starts reached

-- one id apart from all others
abbrev only : String → ℕ
only id = if id == "U" then 1 else 0

start-Reaches-accounted_example :
    (served only with_link.host.trace
      ≡ held only with_link.host + stopped only with_link.host.trace)
    × ((stats with_link.host).actor_instance_count ≡ held (λ _. 1) with_link.host)
start-Reaches-accounted_example =
    start-Reaches-accounted startup "node" config started first_ctx lattice platform clock 64
      with_link only (λ topic t. refl) starts reached
