-- ===== src/Host/Startup/Keys.antt =====
-- The keys, issuers, connections and tables of a host that `Host::new` has made.
use kasmcloud.Prelude.{String, ◌≡◌, refl, true, [], ok, inl, inr, arith, unwrap_or, Result-cases}
use kasmcloud.External.{KeyPair, KeyPairType}
use kasmcloud.External.Startup.{Startup}
use kasmcloud.Host.{HostConfig, Host}
use kasmcloud.Host.Startup.{
  is_cluster, is_server, Client, Started, connections, bare_host, cluster_key_of, host_key_of, new,
}
use kasmcloud.Host.Startup.Issuers.{trusts, issuers_with_own, issuers_with_kept, key_or_new_kind}
use kasmcloud.Host.Startup.Connections.{Follows, connections-Follow}

-- A host that holds nothing yet.
pub record IsBare (name : String) (h : Host) : Type 0 where
  pub named : h.name ≡ name
  pub no_links : h.links ≡ []
  pub no_keys : h.actor_keys ≡ []
  pub no_actors : h.actors ≡ []
  pub no_providers : h.providers ≡ []
  pub no_effects : h.trace ≡ []

built-IsBare :
    (name : String) (config : HostConfig) (cluster_key host_key : KeyPair)
    → IsBare name (bare_host name config cluster_key host_key)
built-IsBare name config cluster_key host_key = record {
  named = refl;
  no_links = refl;
  no_keys = refl;
  no_actors = refl;
  no_providers = refl;
  no_effects = refl;
}

-- A host that may sign and serve: keys of the right kinds, its own issuer and all configured ones
-- trusted, connections as configured, and nothing held yet.
pub record WellMade (name : String) (config : HostConfig) (s : Started) : Type 0 where
  pub server_key : is_server s.host.host_key.key_pair_type ≡ true
  pub cluster_key : is_cluster s.host.cluster_key.key_pair_type ≡ true
  pub trusts_itself : trusts s.host.cluster_issuers s.host.cluster_key.public_key ≡ true
  pub trusts_configured :
      (issuer : String)
      → trusts (unwrap_or config.cluster_issuers []) issuer ≡ true
      → trusts s.host.cluster_issuers issuer ≡ true
  pub rpc : Follows config.rpc_config s.rpc_nats
  pub prov : Follows config.prov_rpc_config s.prov_rpc_nats
  pub bare : IsBare name s.host

abbrev built : String → HostConfig → KeyPair → KeyPair → Client → Client → Started
built name config cluster_key host_key rpc prov = record {
  host = bare_host name config cluster_key host_key;
  rpc_nats = rpc;
  prov_rpc_nats = prov;
}

module _ (S : Startup) where
  -- what a host that was made was made of
  record Parts (name : String) (config : HostConfig) (s : Started) : Type 0 where
    cluster_key : KeyPair
    host_key : KeyPair
    rpc : Client
    prov : Client
    as_cluster : cluster_key_of S config ≡ ok cluster_key
    as_server : host_key_of S config ≡ ok host_key
    connected : connections S config ≡ ok (rpc, prov)
    made : built name config cluster_key host_key rpc prov ≡ s

  new-Parts :
      (name : String) (config : HostConfig) (s : Started)
      → new S name config ≡ ok s
      → Parts name config s
  unfolding new
  new-Parts name config s h = elim (Result-cases (cluster_key_of S config)) [
    | inl (e, p) ↦ absurd (ground arith)
    | inr (ck, p) ↦ elim (Result-cases (host_key_of S config)) [
      | inl (e, q) ↦ absurd (ground arith)
      | inr (hk, q) ↦ elim (Result-cases S.build_runtime) [
        | inl (e, r) ↦ absurd (ground arith)
        | inr (u, r) ↦ elim (Result-cases (connections S config)) [
          | inl (e, t) ↦ absurd (ground arith)
          | inr ((rpc, prov), t) ↦ record {
            cluster_key = ck;
            host_key = hk;
            rpc = rpc;
            prov = prov;
            as_cluster = p;
            as_server = q;
            connected = t;
            made = ground arith;
          }
        ]
      ]
    ]
  ]

  pub new-IsBare :
      (name : String) (config : HostConfig) (s : Started)
      → new S name config ≡ ok s
      → IsBare name s.host
  new-IsBare name config s h =
      let c = new-Parts name config s h in
      rw (← c.made) (built-IsBare name config c.cluster_key c.host_key)

  pub new-WellMade :
      (name : String) (config : HostConfig) (s : Started)
      → ((t : KeyPairType) → (S.new_key t).key_pair_type ≡ t)
      → new S name config ≡ ok s
      → WellMade name config s
  new-WellMade name config s fresh h =
      let c = new-Parts name config s h in
      let (rpc, prov) = connections-Follow S config c.connected in
      rw (← c.made) (record {
        server_key =
            key_or_new_kind is_server
              (λ t.
                S.failed_comparison "host_key.key_pair_type() == KeyPairType::Server" t
                  KeyPairType.server)
              (S.new_key KeyPairType.server) config.host_key (rw (fresh KeyPairType.server) refl)
              c.as_server;
        cluster_key =
            key_or_new_kind is_cluster
              (λ t.
                S.failed_comparison "cluster_key.key_pair_type() == KeyPairType::Cluster" t
                  KeyPairType.cluster)
              (S.new_key KeyPairType.cluster) config.cluster_key
              (rw (fresh KeyPairType.cluster) refl) c.as_cluster;
        trusts_itself =
            issuers_with_own (unwrap_or config.cluster_issuers []) c.cluster_key.public_key;
        trusts_configured =
            λ i. issuers_with_kept (unwrap_or config.cluster_issuers []) c.cluster_key.public_key i;
        rpc = rpc;
        prov = prov;
        bare = built-IsBare name config c.cluster_key c.host_key;
      })
