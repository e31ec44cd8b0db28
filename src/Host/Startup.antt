-- ===== src/Host/Startup.antt =====
-- `connect_nats` and `Host::new` of lib.rs. The labels that `new` collects are dropped unread, and
-- what it prints is left out.
pub mod Issuers
pub mod Connections
pub mod Keys
use kasmcloud.Prelude.{
  ℕ, String, Bool, true, false, Option, none, some, List, [], ◌∷◌, ◌++◌, Result, ok, err, Error,
  anyhow, context, unwrap_or, any, ◌==◌, if◌then◌else◌,
}
use kasmcloud.External.{KeyPair, KeyPairType, server, cluster}
use kasmcloud.External.Startup.{ConnectOptions, Startup}
use kasmcloud.Host.{NatsConfig, HostConfig, Host}

abbrev pub is_cluster : KeyPairType → Bool
is_cluster KeyPairType.cluster = true
is_cluster _ = false

abbrev pub is_server : KeyPairType → Bool
is_server KeyPairType.server = true
is_server _ = false

-- A connection, by what it was made with.
pub record Client : Type 0 where
  pub options : ConnectOptions
  pub url : String

-- A token and a key come together or not at all.
abbrev pub auth_of : Option String → Option KeyPair → Result Error (Option (String × KeyPair))
auth_of (some jwt) (some key) = ok (some (jwt, key))
auth_of (some _) none = err (anyhow "cannot authenticate if only one of jwt or seed is specified")
auth_of none (some _) = err (anyhow "cannot authenticate if only one of jwt or seed is specified")
auth_of none none = ok none

-- The configured key, if it is of the kind wanted, or a new one.
abbrev pub key_or_new :
    (KeyPairType → Bool) → (KeyPairType → String) → KeyPair → Option KeyPair → Result Error KeyPair
key_or_new wanted condition fresh none = ok fresh
key_or_new wanted condition fresh (some key) =
    if wanted key.key_pair_type then ok key else err (anyhow (condition key.key_pair_type))

-- The issuers configured, with the host's own cluster key among them.
abbrev pub issuers_with : String → List String → List String
issuers_with own issuers = if any (λ i. i == own) issuers then issuers else issuers ++ own ∷ []

-- `try_join!`: both, or the error that comes first.
abbrev pub try_join : {A B : Type 0} → Bool → Result Error A → Result Error B → Result Error (A × B)
try_join first (ok a) (ok b) = ok (a, b)
try_join first (err e) (ok b) = err e
try_join first (ok a) (err e) = err e
try_join first (err e) (err e') = err (if first then e else e')

-- What `Host::new` makes: the host, and the connections that it holds.
pub record Started : Type 0 where
  pub host : Host
  pub rpc_nats : Client
  pub prov_rpc_nats : Client

abbrev pub bare_host : String → HostConfig → KeyPair → KeyPair → Host
bare_host name config cluster_key host_key = record {
  name = name;
  host_key = host_key;
  lattice_prefix = config.lattice_prefix;
  cluster_key = cluster_key;
  cluster_issuers = issuers_with cluster_key.public_key (unwrap_or config.cluster_issuers []);
  config = config;
  links = [];
  actor_keys = [];
  actors = [];
  providers = [];
  aliases = [];
  trace = [];
}

module _ (S : Startup) where
  unfoldable pub connect_nats : NatsConfig → Result Error Client
  connect_nats config = elim (auth_of config.jwt config.key) [
    | err e ↦ err e
    | ok auth ↦
        let options : ConnectOptions = record {
          require_tls = config.tls;
          auth = auth;
          request_timeout = config.timeout;
        } in
        elim (context "failed to connect to NATS" (S.connect options config.url)) [
          | err e ↦ err e
          | ok _ ↦ ok (record { options = options; url = config.url })
        ]
  ]

  unfoldable pub connections : HostConfig → Result Error (Client × Client)
  connections config =
      try_join S.rpc_first
        (context "failed to establish NATS RPC server connection" (connect_nats config.rpc_config))
        (context "failed to establish NATS provider RPC server connection"
          (connect_nats config.prov_rpc_config))

  abbrev pub cluster_key_of : HostConfig → Result Error KeyPair
  cluster_key_of config =
      key_or_new is_cluster
        (λ t.
          S.failed_comparison "cluster_key.key_pair_type() == KeyPairType::Cluster" t
            KeyPairType.cluster)
        (S.new_key KeyPairType.cluster) config.cluster_key

  abbrev pub host_key_of : HostConfig → Result Error KeyPair
  host_key_of config =
      key_or_new is_server
        (λ t.
          S.failed_comparison "host_key.key_pair_type() == KeyPairType::Server" t
            KeyPairType.server)
        (S.new_key KeyPairType.server) config.host_key

  unfoldable pub new : String → HostConfig → Result Error Started
  new name config = elim (cluster_key_of config) [
    | err e ↦ err e
    | ok cluster_key ↦ elim (host_key_of config) [
      | err e ↦ err e
      | ok host_key ↦ elim (context "failed to build runtime" S.build_runtime) [
        | err e ↦ err e
        | ok _ ↦ elim (connections config) [
          | err e ↦ err e
          | ok (rpc, prov) ↦ ok (record {
            host = bare_host name config cluster_key host_key;
            rpc_nats = rpc;
            prov_rpc_nats = prov;
          })
        ]
      ]
    ]
  ]
