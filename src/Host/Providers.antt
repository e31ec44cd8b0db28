-- ===== src/Host/Providers.antt =====
-- `start_provider` and `stop_provider` of lib.rs. A child process is killed when its handle is
-- dropped (`kill_on_drop(true)`): with the instance that holds it, or with a start that fails.
pub mod Start
pub mod Stop
pub mod Undone
pub mod Told
use kasmcloud.Prelude.{
  ℕ, zero, suc, ◌^◌, String, Bool, true, false, Option, none, some, List, [], ◌∷◌, Result, ok, err,
  Error, anyhow, Action, pure, raise, lift, ask, modify, context, context_none, with_context,
  add_context, ◌>>=◌, ◌>>◌, ltb, format, unwrap_or, ◌==◌, ◌&&◌, if◌then◌else◌,
}
use kasmcloud.Map.{Map, lookup, insert, remove, values}
use kasmcloud.External.{Bytes, Child, Claims, ProviderMetadata, KeyPair, LinkDefinition, Request}
use kasmcloud.External.Effects.{Trace, Effect, perform}
use kasmcloud.External.Platform.{Platform, HostData}
use kasmcloud.Host.{Host, Provider, ProviderInstance, outside}

abbrev pub in_provider : String → Option Provider → Option ProviderInstance
in_provider link_name none = none
in_provider link_name (some p) = lookup link_name p.instances

abbrev pub find_instance : String → String → Map Provider → Option ProviderInstance
find_instance key link_name providers = in_provider link_name (lookup key providers)

abbrev pub new_provider : Claims ProviderMetadata → String → Provider
new_provider claims image_ref = record { claims = claims; instances = []; image_ref = image_ref }

-- `providers.entry(subject).or_insert(..)`
unfoldable pub ensure_provider : Claims ProviderMetadata → String → Host → Host
ensure_provider claims image_ref h = elim (lookup claims.subject h.providers) [
  | none ↦ record h {
    providers = insert claims.subject (new_provider claims image_ref) h.providers;
  }
  | some _ ↦ h
]

-- `entry.insert(ProviderInstance { .. })`
unfoldable pub set_instance : String → String → ProviderInstance → Map Provider → Map Provider
set_instance key link_name instance providers = elim (lookup key providers) [
  | none ↦ providers
  | some p ↦ insert key (record p { instances = insert link_name instance p.instances }) providers
]

unfoldable pub links_for : String → String → List LinkDefinition → List LinkDefinition
links_for subject link_name [] = []
links_for subject link_name (ld ∷ lds) =
    if ld.provider_id == subject && ld.link_name == link_name
    then ld ∷ links_for subject link_name lds
    else links_for subject link_name lds

-- `key.map(|key| key.seed()).transpose()`
abbrev pub seed_of : Option KeyPair → Result Error (Option String)
seed_of none = ok none
seed_of (some key) = elim key.seed [ ok s ↦ ok (some s) | err e ↦ err e ]

-- `as_millis().try_into()` to u64
abbrev pub to_u64 : ℕ → Result Error ℕ
to_u64 n =
    if ltb n (2 ^ 64) then ok n else err (anyhow "out of range integral type conversion attempted")

module _ (P : Platform) where
  -- What the new process is told on its standard input.
  unfoldable pub host_data_for :
      Claims ProviderMetadata → String → String → Host → Result Error HostData
  unfolding links_for
  host_data_for claims link_name id h =
      elim (context "cluster key seed missing" h.cluster_key.seed) [
        | err e ↦ err e
        | ok seed ↦
            elim (context "private key missing for provider RPC key"
              (seed_of h.config.prov_rpc_config.key)) [
                | err e ↦ err e
                | ok user_seed ↦
                    elim (context "failed to convert rpc_timeout to u64"
                      (to_u64 (unwrap_or h.config.rpc_config.timeout 0))) [
                        | err e ↦ err e
                        | ok timeout ↦ ok (record {
                          host_id = h.host_key.public_key;
                          lattice_rpc_prefix = h.config.lattice_prefix;
                          link_name = link_name;
                          lattice_rpc_user_jwt = unwrap_or h.config.prov_rpc_config.jwt "";
                          lattice_rpc_user_seed = unwrap_or user_seed "";
                          lattice_rpc_url = h.config.prov_rpc_config.url;
                          instance_id = P.uuid_of id;
                          provider_key = claims.subject;
                          link_definitions = links_for claims.subject link_name (values h.links);
                          default_rpc_timeout_ms = some timeout;
                          cluster_issuers = h.cluster_issuers;
                          invocation_seed = seed;
                          log_level = h.config.log_level;
                        })
                      ]
              ]
      ]

  -- The writes to the child's standard input.
  unfoldable pub feed : Bytes → Action Trace Error (Unit {0})
  feed host_data = do
    ask λ t. context "failed to take stdin" (P.take_stdin t)
    perform (Effect.wrote (P.base64 host_data))
        λ t. context "failed to write provider data" (P.write_stdin (P.base64 host_data) t)
    perform (Effect.wrote (13 ∷ 10 ∷ []))
        λ t. context "failed to write newline" (P.write_stdin (13 ∷ 10 ∷ []) t)
    ask λ t. context "failed to close stdin" (P.close_stdin t)

  -- A start that fails after the spawn drops the child.
  unfoldable pub spawn_child : String → String → Bytes → Action Trace Error Child
  spawn_child path id host_data t =
      elim (context "failed to spawn provider process" (P.spawn path t)) [
        | err e ↦ (err e, t)
        | ok child ↦
            let (r, t') = feed host_data (Effect.spawned path id ∷ t) in
            elim r [ ok _ ↦ (ok child, t') | err e ↦ (err e, Effect.killed id ∷ t') ]
      ]

  unfoldable pub launch : Claims ProviderMetadata → String → String → Action Host Error (Unit {0})
  launch claims link_name path = do
    id ← ask λ h. ok (P.new_ulid h.trace)
    host_data ← ask (host_data_for claims link_name id)
    encoded ← lift (context "failed to serialize provider data" (P.encode_host_data host_data))
    child ← outside (spawn_child path id encoded)
    modify λ h. record h {
      providers =
          set_instance claims.subject link_name (record { child = child; id = id }) h.providers;
    }

  unfoldable pub launch_missing :
      Claims ProviderMetadata → String → String → Action Host Error (Unit {0})
  launch_missing claims link_name path h =
      elim (find_instance claims.subject link_name h.providers) [
        | none ↦ launch claims link_name path h
        | some _ ↦ (ok tt, h)
      ]

  unfoldable pub start_provider : String → String → Action Host Error (Claims ProviderMetadata)
  start_provider link_name provider_ref = do
    fetched ←
        ask
          λ h. context "failed to fetch provider" (P.fetch_provider provider_ref link_name h.trace)
    modify (ensure_provider fetched.1 provider_ref)
    launch_missing fetched.1 link_name fetched.0
    pure fetched.1

  -- The request is sent if its payload can be encoded; its answer only decides what is logged.
  unfoldable pub request_shutdown : String → String → Host → Host
  request_shutdown key link_name h = elim (P.shutdown_payload h.host_key.public_key) [
    | err _ ↦ h
    | ok payload ↦ record h {
      trace =
          Effect.requested (record {
            topic = format (
                "wasmbus.rpc." ∷ h.config.lattice_prefix ∷ "." ∷ key ∷ "." ∷ link_name ∷ ".shutdown"
                ∷ []);
            payload = payload;
            timeout = some 5000;
            headers = [];
          })
          ∷ h.trace;
    }
  ]

-- A provider with no instances left is dropped.
unfoldable pub put_provider : String → Provider → Map Provider → Map Provider
put_provider key p providers = elim p.instances [
  | [] ↦ remove key providers
  | _ ∷ _ ↦ insert key p providers
]

module _ (P : Platform) where
  -- `entry.remove()` drops the instance, and its child with it, before the request is made.
  unfoldable pub stop_instance : String → String → ProviderInstance → Host → Host
  stop_instance key link_name instance h =
      request_shutdown P key link_name (record h { trace = Effect.killed instance.id ∷ h.trace })

  unfoldable pub stop_provider : String → String → Action Host Error (Unit {0})
  stop_provider link_name key h = elim (lookup key h.providers) [
    | none ↦ (ok tt, h)
    | some p ↦ elim (lookup link_name p.instances) [
      | none ↦ (ok tt, record h { providers = put_provider key p h.providers })
      | some instance ↦
          let stopped = stop_instance key link_name instance h in
          (
            ok tt,
            record stopped {
              providers =
                  put_provider key (record p { instances = remove link_name p.instances })
                    stopped.providers;
            },
          )
    ]
  ]
