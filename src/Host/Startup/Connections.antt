-- ===== src/Host/Startup/Connections.antt =====
-- The connections of a new host.
use kasmcloud.Prelude.{
  String, ◌≡◌, refl, Option, none, some, ok, inl, inr, arith, context, context-eq-ok, Result-cases,
}
use kasmcloud.External.{KeyPair}
use kasmcloud.External.Startup.{Startup}
use kasmcloud.Host.{NatsConfig, HostConfig}
use kasmcloud.Host.Startup.{Client, auth_of, connect_nats, connections}
use kasmcloud.Host.Startup.Issuers.{try_join-ok}

abbrev pub map_option : {A B : Type 0} → (A → B) → Option A → Option B
map_option f none = none
map_option f (some a) = some (f a)

-- The connection is made as the configuration says, and authenticates with exactly its token and key.
pub record Follows (config : NatsConfig) (client : Client) : Type 0 where
  pub url : client.url ≡ config.url
  pub require_tls : client.options.require_tls ≡ config.tls
  pub request_timeout : client.options.request_timeout ≡ config.timeout
  pub jwt : map_option (λ a. a.0) client.options.auth ≡ config.jwt
  pub key : map_option (λ a. a.1) client.options.auth ≡ config.key

auth_of-pairs :
    (jwt : Option String) (key : Option KeyPair) (auth : Option (String × KeyPair))
    → auth_of jwt key ≡ ok auth
    → (map_option (λ a. a.0) auth ≡ jwt) × (map_option (λ a. a.1) auth ≡ key)
auth_of-pairs (some jwt) (some key) (some (j, k)) h = (cc, cc)
auth_of-pairs (some jwt) (some key) none h = absurd (cc)
auth_of-pairs (some jwt) none auth h = absurd (cc)
auth_of-pairs none (some key) auth h = absurd (cc)
auth_of-pairs none none (some (j, k)) h = absurd (cc)
auth_of-pairs none none none h = (refl, refl)

module _ (S : Startup) where
  connect_nats-Follows :
      (config : NatsConfig) {client : Client}
      → connect_nats S config ≡ ok client
      → Follows config client
  unfolding connect_nats
  connect_nats-Follows config {client} h = elim (Result-cases (auth_of config.jwt config.key)) [
    | inl (e, p) ↦ absurd (ground arith)
    | inr (auth, p) ↦
        let (j, k) = auth_of-pairs config.jwt config.key auth p in
        elim (Result-cases (
          S.connect
            (record { require_tls = config.tls; auth = auth; request_timeout = config.timeout })
            config.url)) [
              | inl (e, q) ↦ absurd (ground arith)
              | inr (u, q) ↦
                  let made : record {
                    options = record {
                      require_tls = config.tls;
                      auth = auth;
                      request_timeout = config.timeout;
                    };
                    url = config.url;
                  }
                      ≡ client =
                    ground arith in
                  rw (← made) (record {
                    url = refl;
                    require_tls = refl;
                    request_timeout = refl;
                    jwt = j;
                    key = k;
                  })
            ]
  ]

  pub connections-Follow :
      (config : HostConfig) {rpc prov : Client}
      → connections S config ≡ ok (rpc, prov)
      → Follows config.rpc_config rpc × Follows config.prov_rpc_config prov
  unfolding connections
  connections-Follow config {rpc} {prov} h =
      let (p, q) =
        try_join-ok S.rpc_first
          (context "failed to establish NATS RPC server connection"
            (connect_nats S config.rpc_config))
          (context "failed to establish NATS provider RPC server connection"
            (connect_nats S config.prov_rpc_config))
          h in
      (
        connect_nats-Follows config.rpc_config
            (context-eq-ok _ (connect_nats S config.rpc_config) p),
        connect_nats-Follows config.prov_rpc_config
            (context-eq-ok _ (connect_nats S config.prov_rpc_config) q),
      )
