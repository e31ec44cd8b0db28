-- ===== src/External/Startup.antt =====
-- What main.rs and `Host::new` ask of other crates when the program starts: keys, URLs, levels, the
-- actor runtime, NATS connections and the API server.
use kasmcloud.Prelude.{ℕ, String, Bool, Option, Result, Error}
use kasmcloud.External.{KeyPair, KeyPairType}

-- async_nats::ConnectOptions, by what the program sets; what is none is left at its default
pub record ConnectOptions : Type 0 where
  pub require_tls : Bool
  -- the token, and the key that signs the server's nonce
  pub auth : Option (String × KeyPair)
  pub request_timeout : Option ℕ

-- kube::error::Error: the reason that the API server gave, or another failure
pub data KubeError : Type 0 where
  -- the reason, and the error as text
  api : String → String → KubeError
  -- the error as text
  other : String → KubeError

pub record Startup : Type 0 where
  -- `KeyPair::new`, `KeyPair::from_seed`
  pub new_key : KeyPairType → KeyPair
  pub from_seed : String → Result Error KeyPair
  -- `Url::parse`, a port as text, `names::Generator::next`
  pub parse_url : String → Result Error String
  pub port_text : ℕ → String
  -- `TracingLogLevel::from_str`, as the level of wasmcloud_core
  pub parse_level : String → Result Error String
  pub generate_name : Option String
  -- what anyhow's `ensure!` says of a comparison that fails: its text, and the two sides
  pub failed_comparison : String → KeyPairType → KeyPairType → String
  -- the builder of wasmcloud_runtime::Runtime
  pub build_runtime : Result Error (Unit {0})
  -- `ConnectOptions::connect`; of the two connections that are made at once, whether the one for
  -- actors is the first to have an outcome
  pub connect : ConnectOptions → String → Result Error (Unit {0})
  pub rpc_first : Bool
  -- kube::Client
  pub try_default : Result Error (Unit {0})
  pub create_host : String → Result KubeError (Unit {0})
  -- the first patch of the host's status, by the host's name
  pub patch_status : String → Result Error (Unit {0})
