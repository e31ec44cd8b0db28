-- ===== src/Tests/Fixture.antt =====
-- Small concrete services, keys, claims and hosts.
use kasmcloud.Prelude.{String, false, none, some, [], ◌∷◌, ok, err, anyhow, length, pos, true}
use kasmcloud.External.{
  Bytes, KeyPair, KeyPairType, ActorMetadata, ProviderMetadata, Claims, WasmCloudEntity, Invocation,
  InvocationResponse, LinkDefinition, default_response,
}
use kasmcloud.External.Lattice.{Lattice}
use kasmcloud.External.Platform.{Platform}
use kasmcloud.External.Clock.{Clock}
use kasmcloud.External.Compat.{Compat}
use kasmcloud.External.Blobs.{Blobs}
use kasmcloud.External.Runtime.{Runtime}
use kasmcloud.Handler.{Handler, Shared, entity_of_key}
use kasmcloud.Actor.{ActorInstance, handle_call}
use kasmcloud.Host.{Host, NatsConfig}

abbrev pub key_pair : String → KeyPair
key_pair k = record { public_key = k; seed = ok "SEED"; key_pair_type = KeyPairType.account }

abbrev pub echo_claims : Claims ActorMetadata
echo_claims = record {
  issuer = "ISSUER";
  subject = "MECHO";
  issued_at = 1;
  not_before = none;
  expires = none;
  metadata = some (record {
    name = some "echo";
    caps = some (
        "wasmcloud:httpserver" ∷ "wasmcloud:keyvalue" ∷ "wasmcloud:blobstore"
        ∷ "wasmcloud:builtin:logging" ∷ []);
    provider = false;
    rev = none;
    ver = none;
    call_alias = none;
  });
}

abbrev pub http_claims : Claims ProviderMetadata
http_claims = record {
  issuer = "ISSUER";
  subject = "VHTTP";
  issued_at = 1;
  not_before = none;
  expires = none;
  metadata = none;
}

abbrev pub http_entity : WasmCloudEntity
http_entity = record {
  public_key = "VHTTP";
  link_name = "default";
  contract_id = "wasmcloud:httpserver";
}

abbrev pub handler : Handler
handler = record {
  lattice_prefix = "default";
  cluster_key = key_pair "CCLUSTER";
  host_key = key_pair "NHOST";
  claims = echo_claims;
  origin = entity_of_key "MECHO";
}

abbrev pub shared : Shared
shared = record {
  links = ("http", ("default", http_entity) ∷ []) ∷ [];
  aliases = ("friend", entity_of_key "MFRIEND") ∷ [];
  targets = [];
}

-- An invocation travels as its body; the reader knows the rest.
abbrev pub invocation_with : Bytes → Invocation
invocation_with msg = record {
  origin = entity_of_key "MECHO";
  target = http_entity;
  operation = "http/Serve";
  msg = msg;
  id = "inv";
  content_length = length msg;
}

abbrev response_with : Bytes → InvocationResponse
response_with msg = record default_response {
  msg = msg;
  invocation_id = "inv";
  content_length = length msg;
}

abbrev quiet : Lattice
quiet = record {
  chunk_threshold = 4;
  chunk_rpc_extra_time = 13000;
  usize_max = 1000;
  injector = λ t. [];
  header_name = λ k. some k;
  header_value = λ v. some v;
  new_invocation = λ t ck hk o e op msg hs. ok (record {
    origin = o;
    target = e;
    operation = op;
    msg = msg;
    id = "inv";
    content_length = length msg;
  });
  validate_antiforgery = λ inv issuers. ok tt;
  encode_invocation = λ inv. ok inv.msg;
  decode_invocation = λ b. ok (invocation_with b);
  encode_response = λ r. ok r.msg;
  decode_response = λ b. ok (response_with b);
  chunkify = λ id b t. ok tt;
  chunkify_response = λ id b t. ok tt;
  get_unchunkified = λ id t. ok [];
  send_request = λ r t. ok r.payload;
  publish = λ topic b t. ok tt;
  write_reply = λ b t. ok tt;
}

abbrev pub instance : ActorInstance
instance = record { id = "I1"; handler = handler; valid_issuers = "CCLUSTER" ∷ [] }

-- An actor that answers with the request and one byte more.
abbrev pub runtime : Runtime Unit Unit Unit Unit
runtime = record {
  instantiate = λ t. ok tt;
  set_stderr = λ t. ok tt;
  decode_http_request = λ b. ok tt;
  to_http_request = λ c. ok tt;
  into_incoming_http = λ t. ok tt;
  handle = λ h t. ok tt;
  from_http = λ r. ok tt;
  encode_http_response = λ w. ok [];
  call = λ op b t. ok (ok tt);
  writes = λ op b t. b ∷ (7 ∷ []) ∷ [];
}

-- A request is served by the instance.
abbrev pub lattice : Lattice
lattice = record quiet { send_request = λ r t. (handle_call quiet runtime instance r.payload t).0 }

-- A lattice on which nothing is published.
abbrev pub mute : Lattice
mute = record quiet { publish = λ topic b t. err (anyhow "no responders") }

abbrev pub platform : Platform
platform = record {
  sha256_hex = λ s. s;
  fetch_actor = λ r t. ok [];
  new_actor = λ b. ok (some echo_claims);
  queue_subscribe = λ topic t. ok tt;
  new_ulid = λ t. "U";
  uuid_of = λ u. u;
  fetch_provider = λ r l t. ok ("/bin/http", http_claims);
  encode_linkdef = λ ld. ok (1 ∷ []);
  encode_host_data = λ d. ok (2 ∷ []);
  base64 = λ b. b;
  shutdown_payload = λ k. ok (3 ∷ []);
  spawn = λ p t. ok (record { pid = 7 });
  take_stdin = λ t. ok tt;
  write_stdin = λ b t. ok tt;
  close_stdin = λ t. ok tt;
}

-- A platform that cannot start a process.
abbrev pub stuck : Platform
stuck = record platform { spawn = λ p t. err (anyhow "no such file") }

abbrev nats : NatsConfig
nats = record { url = "nats://"; timeout = none; jwt = none; key = none; tls = false }

abbrev pub empty_host : Host
empty_host = record {
  name = "host";
  host_key = key_pair "NHOST";
  lattice_prefix = "default";
  cluster_key = key_pair "CCLUSTER";
  cluster_issuers = "CCLUSTER" ∷ [];
  config = record {
    allow_file_load = false;
    rpc_config = nats;
    prov_rpc_config = nats;
    lattice_prefix = "default";
    js_domain = none;
    host_key = none;
    cluster_key = none;
    cluster_issuers = none;
    log_level = none;
  };
  links = [];
  actor_keys = [];
  actors = [];
  providers = [];
  aliases = [];
  trace = [];
}

abbrev pub http_link : LinkDefinition
http_link = record {
  actor_id = "MECHO";
  provider_id = "VHTTP";
  link_name = "default";
  contract_id = "wasmcloud:httpserver";
  values = [];
}

abbrev pub clock : Clock
clock = record { timestamp_opt = λ t. some "2023-01-01"; min_utc = "MIN" }

-- Requests are two bytes long, and a number is the length of its response.
abbrev pub compat : Compat
compat = record {
  encode_key = λ k. ok (1 ∷ 2 ∷ []);
  encode_increment = λ r. ok (1 ∷ 2 ∷ []);
  encode_set = λ r. ok (1 ∷ 2 ∷ []);
  encode_request = λ r. ok (1 ∷ 2 ∷ []);
  encode_publish = λ r. ok (1 ∷ 2 ∷ []);
  decode_unit = λ b. ok tt;
  decode_bool = λ b. ok true;
  decode_i32 = λ b. ok (pos (length b));
  decode_get = λ b. ok (record { value = b; exists = true });
  decode_reply = λ b. ok (record { subject = "reply"; reply_to = none; body = b });
}

abbrev pub store_entity : WasmCloudEntity
store_entity = record {
  public_key = "VSTORE";
  link_name = "default";
  contract_id = "wasmcloud:keyvalue";
}

abbrev pub with_store : Shared
with_store = record {
  links = ("wasmcloud:keyvalue", ("default", store_entity) ∷ []) ∷ [];
  aliases = [];
  targets = [];
}

abbrev pub blobs : Blobs
blobs = record {
  encode_name = λ n. ok (1 ∷ 2 ∷ []);
  encode_get = λ r. ok (1 ∷ 2 ∷ []);
  encode_object = λ r. ok (1 ∷ 2 ∷ []);
  encode_put = λ r. ok (1 ∷ 2 ∷ []);
  encode_remove = λ r. ok (1 ∷ 2 ∷ []);
  encode_list = λ r. ok (1 ∷ 2 ∷ []);
  decode_unit = λ b. ok tt;
  decode_bool = λ b. ok true;
  decode_container = λ b. ok (record { container_id = "photos"; created_at = none });
  decode_get = λ b. ok (record { success = true; error = none; initial_chunk = none });
  decode_put = λ b. ok none;
  decode_items = λ b. ok (record { key = "cat"; success = true; error = none } ∷ []);
  decode_list = λ b. ok (record { objects = []; is_last = true; continuation = none });
  decode_object =
      λ b. ok (record { object_id = "cat"; container_id = "photos"; content_length = 3 });
}

abbrev blob_entity : WasmCloudEntity
blob_entity = record {
  public_key = "VBLOB";
  link_name = "default";
  contract_id = "wasmcloud:blobstore";
}

abbrev pub with_blobs : Shared
with_blobs = record {
  links = ("wasmcloud:blobstore", ("default", blob_entity) ∷ []) ∷ [];
  aliases = [];
  targets = [];
}
