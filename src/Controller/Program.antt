-- ===== src/Controller/Program.antt =====
-- `KasmCloudConfig`, `get_hostname` and the start of `main` of main.rs, up to the controllers. The
-- configuration is read by the config crate, so it is an argument. Tracing is left out: whether it
-- is configured changes nothing else.
pub mod Start
pub mod Accord
use kasmcloud.Prelude.{
  ℕ, String, Bool, true, false, Option, none, some, List, [], ◌∷◌, Result, ok, err, Error, anyhow,
  context, context_none, format, ◌==◌, if◌then◌else◌,
}
use kasmcloud.External.{KeyPair}
use kasmcloud.External.Startup.{KubeError, api, other, Startup}
use kasmcloud.Host.{NatsConfig, HostConfig}
use kasmcloud.Host.Startup.{Started, new}
use kasmcloud.Controller.{Ctx}
use kasmcloud.Controller.Workloads.{update_host_status}

pub record KasmCloudConfig : Type 0 where
  pub temporary : Bool
  pub host_name : Option String
  pub nats_host : String
  pub nats_port : ℕ
  pub nats_jwt : Option String
  pub nats_seed : Option String
  pub js_domain : Option String
  pub host_seed : Option String
  pub cluster_seed : Option String
  pub cluster_issuers : Option (List String)
  pub log_level : String
  pub enable_structured_logging : Bool
  pub otel_traces_exporter : Option String
  pub otel_exporter_otlp_endpoint : Option String

module _ {E A B : Type 0} where
  -- `?`
  infixl 5 ◌then?◌
  abbrev pub ◌then?◌ : Result E A → (A → Result E B) → Result E B
  (ok a) then? f = f a
  (err e) then? f = err e

module _ (S : Startup) where
  unfoldable pub get_hostname : KasmCloudConfig → Result Error String
  get_hostname config = elim config.host_name [
    | some host_name ↦ ok host_name
    | none ↦
        if config.temporary
        then context_none "generated failed" S.generate_name
        else err (anyhow "require host name")
  ]

  -- `seed.map(KeyPair::from_seed).transpose().context(message)?`
  abbrev pub key_of_seed : String → Option String → Result Error (Option KeyPair)
  key_of_seed message none = ok none
  key_of_seed message (some seed) = context message (S.from_seed seed) then? λ key. ok (some key)

  unfoldable pub host_config : KasmCloudConfig → Result Error HostConfig
  host_config config = context "invalid log_level" (S.parse_level config.log_level) then? λ level.
      key_of_seed "failed to contruct host key pair from seed" config.host_seed then? λ host_key.
      key_of_seed "failed to contruct cluster key pair from seed" config.cluster_seed
      then? λ cluster_key.
          key_of_seed "failed to contruct NATS key pair from seed" config.nats_seed
          then? λ nats_key.
              context "failed to parse nats" (
                S.parse_url
                  (format ("nats://" ∷ config.nats_host ∷ ":" ∷ S.port_text config.nats_port ∷ [])))
              then? λ url.
                  let rpc_config : NatsConfig = record {
                    url = url;
                    jwt = config.nats_jwt;
                    key = nats_key;
                    tls = false;
                    timeout = some 2000;
                  } in
                  ok (record {
                    rpc_config = rpc_config;
                    prov_rpc_config = record rpc_config { timeout = none };
                    js_domain = config.js_domain;
                    host_key = host_key;
                    lattice_prefix = "default";
                    cluster_key = cluster_key;
                    cluster_issuers = config.cluster_issuers;
                    log_level = some level;
                    allow_file_load = true;
                  })

  -- The host's resource is made; one that is there already will do.
  unfoldable pub create_host_resource : String → Result Error (Unit {0})
  create_host_resource hostname = elim (S.create_host hostname) [
    | ok _ ↦ ok tt
    | err error ↦ elim error [
      | KubeError.api reason text ↦
          if reason == "AlreadyExists"
          then ok tt
          else err (anyhow (format ("failed to create KasmCloudHost: " ∷ text ∷ [])))
      | KubeError.other text ↦
          err (anyhow (format ("failed to create KasmCloudHost: " ∷ text ∷ [])))
    ]
  ]

  -- What the controllers are run with, and the host's connections.
  unfoldable pub start : String → KasmCloudConfig → Result Error (Started × Ctx)
  start node config = get_hostname config then? λ hostname. host_config config then? λ settings.
      context "failed new actor handler" (new S hostname settings) then? λ started.
      S.try_default then? λ client. create_host_resource hostname then? λ created.
      S.patch_status started.host.name then? λ patched.
      ok (
        started,
        update_host_status node (record { host = started.host; links = []; patches = [] }),
      )
