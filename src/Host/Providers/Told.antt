-- ===== src/Host/Providers/Told.antt =====
-- What a provider is told when its process is started.
use kasmcloud.Prelude.{
  String, true, ◌≡◌, refl, ap, ◌∙◌, ◌⊎◌, ◌↔◌, inl, inr, none, List, [], ◌∷◌, ok, arith,
  Result-cases, Option-cases, Bool-cases, ◌>>=◌, pure, bind-eq-ok, unwrap_or, context, ◌==◌, ◌&&◌,
  eq_iff,
}
use kasmcloud.Map.{lookup, values}
use kasmcloud.External.{Bytes, Child, Claims, ProviderMetadata, LinkDefinition}
use kasmcloud.External.Effects.{Trace, Effect}
use kasmcloud.External.Platform.{Platform, HostData}
use kasmcloud.Host.{Host}
use kasmcloud.Host.Providers.{
  seed_of, to_u64, find_instance, ensure_provider, links_for, host_data_for, feed, spawn_child,
  launch, launch_missing, start_provider,
}
use kasmcloud.Host.Providers.Start.{find_instance-ensure_provider, start_provider-fetched}

-- the definition is in the list
abbrev pub Lists : LinkDefinition → List LinkDefinition → Type 0
Lists ld [] = ⊥
Lists ld (x ∷ xs) = (x ≡ ld) ⊎ Lists ld xs

abbrev pub IsFor : String → String → LinkDefinition → Type 0
IsFor subject link_name ld = (ld.provider_id ≡ subject) × (ld.link_name ≡ link_name)

module _ (subject link_name : String) (ld : LinkDefinition) where
  links_for-Lists :
      (lds : List LinkDefinition)
      → Lists ld (links_for subject link_name lds)
      → Lists ld lds × IsFor subject link_name ld
  unfolding links_for
  links_for-Lists [] m = absurd m
  links_for-Lists (x ∷ xs) m =
      elim (Bool-cases (x.provider_id == subject && x.link_name == link_name)) [
        | inl e ↦
            let provider : x.provider_id ≡ subject = ground (arith, eq_iff x.provider_id subject) in
            let link : x.link_name ≡ link_name =
              ground (arith, eq_iff x.link_name link_name, eq_iff x.provider_id subject) in
            let m' : (x ≡ ld) ⊎ Lists ld (links_for subject link_name xs) =
              rw (e, links_for) at m in
            elim m' [
              | inl same ↦ (inl same, rw (← same) (provider, link))
              | inr later ↦ let (l, f) = links_for-Lists xs later in (inr l, f)
            ]
        | inr e ↦ let (l, f) = links_for-Lists xs (rw (e, links_for) at m) in (inr l, f)
      ]

  Lists-links_for :
      (lds : List LinkDefinition)
      → Lists ld lds
      → IsFor subject link_name ld
      → Lists ld (links_for subject link_name lds)
  unfolding links_for
  Lists-links_for [] m f = absurd m
  Lists-links_for (x ∷ xs) (inl same) f =
      let named : x.provider_id == subject && x.link_name == link_name ≡ true = ground (
        arith,
        ap (λ (d : LinkDefinition). d.provider_id) same,
        ap (λ (d : LinkDefinition). d.link_name) same,
        f.0,
        f.1,
        eq_iff x.provider_id subject,
        eq_iff x.link_name link_name,
      ) in
      rw (named, links_for) (inl same)
  Lists-links_for (x ∷ xs) (inr later) f =
      elim (Bool-cases (x.provider_id == subject && x.link_name == link_name)) [
        | inl e ↦ rw (e, links_for) (inr (Lists-links_for xs later f))
        | inr e ↦ rw (e, links_for) (Lists-links_for xs later f)
      ]

module _ (P : Platform) where
  feed-trace :
      (bytes : Bytes) (t : Trace)
      → (feed P bytes t).0 ≡ ok tt
      → (feed P bytes t).1 ≡ Effect.wrote (13 ∷ 10 ∷ []) ∷ Effect.wrote (P.base64 bytes) ∷ t
  unfolding feed
  feed-trace bytes t done = elim (Result-cases (P.take_stdin t)) [
    | inl (e, p) ↦ absurd (ground arith)
    | inr (_, p) ↦ elim (Result-cases (P.write_stdin (P.base64 bytes) t)) [
      | inl (e, q) ↦ absurd (ground arith)
      | inr (_, q) ↦
          elim (Result-cases (P.write_stdin (13 ∷ 10 ∷ []) (Effect.wrote (P.base64 bytes) ∷ t))) [
            | inl (e, r) ↦ absurd (ground arith)
            | inr (_, r) ↦ rw (p, q, r) refl
          ]
    ]
  ]

  spawn_child-trace :
      (path id : String) (bytes : Bytes) (t : Trace) (child : Child)
      → (spawn_child P path id bytes t).0 ≡ ok child
      → (spawn_child P path id bytes t).1
        ≡ Effect.wrote (13 ∷ 10 ∷ []) ∷ Effect.wrote (P.base64 bytes) ∷ Effect.spawned path id ∷ t
  unfolding spawn_child
  spawn_child-trace path id bytes t child done = elim (Result-cases (P.spawn path t)) [
    | inl (e, p) ↦ absurd (ground arith)
    | inr (u, p) ↦ elim (Result-cases (feed P bytes (Effect.spawned path id ∷ t)).0) [
      | inl (e, q) ↦ absurd (ground arith)
      | inr (w, q) ↦ rw (p, spawn_child, q) (feed-trace bytes (Effect.spawned path id ∷ t) q)
    ]
  ]

-- The process was started and told, on its standard input, of the host, of the secret that invocations
-- are signed with, and of exactly the definitions stored for the provider under the link name.
pub record IsTold (P : Platform) (claims : Claims ProviderMetadata) (link_name : String) (h : Host)
    (t : Trace) : Type 0 where
  pub path : String
  pub id : String
  pub told : HostData
  pub bytes : Bytes
  pub encoded : P.encode_host_data told ≡ ok bytes
  pub history :
      t
      ≡ Effect.wrote (13 ∷ 10 ∷ [])
        ∷ Effect.wrote (P.base64 bytes)
        ∷ Effect.spawned path id
        ∷ h.trace
  pub provider_key : told.provider_key ≡ claims.subject
  pub link : told.link_name ≡ link_name
  pub host_id : told.host_id ≡ h.host_key.public_key
  pub secret : h.cluster_key.seed ≡ ok told.invocation_seed
  pub links :
      (ld : LinkDefinition)
      → Lists ld told.link_definitions
        ↔ (Lists ld (values h.links) × IsFor claims.subject link_name ld)

-- what the data to tell are made of
record Tells (claims : Claims ProviderMetadata) (link_name : String) (h : Host) (d : HostData)
    : Type 0 where
  provider_key : d.provider_key ≡ claims.subject
  link : d.link_name ≡ link_name
  host_id : d.host_id ≡ h.host_key.public_key
  secret : h.cluster_key.seed ≡ ok d.invocation_seed
  definitions : d.link_definitions ≡ links_for claims.subject link_name (values h.links)

module _ (P : Platform) (claims : Claims ProviderMetadata) (link_name : String) where
  host_data_for-Tells :
      (id : String) (h : Host) (d : HostData)
      → host_data_for P claims link_name id h ≡ ok d
      → Tells claims link_name h d
  unfolding host_data_for
  host_data_for-Tells id h d e = elim (Result-cases h.cluster_key.seed) [
    | inl (x, p) ↦ absurd (ground arith)
    | inr (seed, p) ↦ elim (Result-cases (seed_of h.config.prov_rpc_config.key)) [
      | inl (x, q) ↦ absurd (ground arith)
      | inr (user, q) ↦ elim (Result-cases (to_u64 (unwrap_or h.config.rpc_config.timeout 0))) [
        | inl (x, r) ↦ absurd (ground arith)
        | inr (timeout, r) ↦
            let e' = rw (p, host_data_for, q, r) at e in
            record {
              provider_key = ground arith;
              link = ground arith;
              host_id = ground arith;
              secret = ground arith;
              definitions = ground arith;
            }
      ]
    ]
  ]

  launch-IsTold :
      (path : String) (h : Host)
      → (launch P claims link_name path h).0 ≡ ok tt
      → IsTold P claims link_name h (launch P claims link_name path h).1.trace
  unfolding launch
  launch-IsTold path h done =
      elim (Result-cases (host_data_for P claims link_name (P.new_ulid h.trace) h)) [
        | inl (e, p) ↦ absurd (ground arith)
        | inr (d, p) ↦ elim (Result-cases (P.encode_host_data d)) [
          | inl (e, q) ↦ absurd (ground arith)
          | inr (bytes, q) ↦
              elim (Result-cases (spawn_child P path (P.new_ulid h.trace) bytes h.trace).0) [
                | inl (e, r) ↦ absurd (ground arith)
                | inr (child, r) ↦
                    let tells = host_data_for-Tells (P.new_ulid h.trace) h d p in
                    rw (p, q, r)
                      (record {
                        path = path;
                        id = P.new_ulid h.trace;
                        told = d;
                        bytes = bytes;
                        encoded = q;
                        history =
                            spawn_child-trace P path (P.new_ulid h.trace) bytes h.trace child r;
                        provider_key = tells.provider_key;
                        link = tells.link;
                        host_id = tells.host_id;
                        secret = tells.secret;
                        links = λ ld. rw tells.definitions (
                          links_for-Lists claims.subject link_name ld (values h.links),
                          λ m. Lists-links_for claims.subject link_name ld (values h.links) m.0 m.1,
                        );
                      })
              ]
        ]
      ]

module _ (P : Platform) (claims : Claims ProviderMetadata) (link_name ref : String) (h : Host) where
  -- the entry of the provider is not what it is told of
  ensured-IsTold :
      (t : Trace)
      → IsTold P claims link_name (ensure_provider claims ref h) t
      → IsTold P claims link_name h t
  unfolding ensure_provider
  ensured-IsTold t v = elim (Option-cases (lookup claims.subject h.providers)) [
    | inl e ↦
        let w = rw (e, ensure_provider) at v in
        record {
          path = w.path;
          id = w.id;
          told = w.told;
          bytes = w.bytes;
          encoded = w.encoded;
          history = w.history;
          provider_key = w.provider_key;
          link = w.link;
          host_id = w.host_id;
          secret = w.secret;
          links = w.links;
        }
    | inr (p, e) ↦ rw (e, ensure_provider) at v
  ]

  launch_missing-IsTold :
      (path : String)
      → find_instance claims.subject link_name h.providers ≡ none
      → (launch_missing P claims link_name path (ensure_provider claims ref h)).0 ≡ ok tt
      → IsTold P claims link_name h
          (launch_missing P claims link_name path (ensure_provider claims ref h)).1.trace
  unfolding launch_missing
  launch_missing-IsTold path missing done =
      let missing' : find_instance claims.subject link_name (ensure_provider claims ref h).providers
          ≡ none =
        find_instance-ensure_provider claims ref claims.subject link_name h ∙ missing in
      rw (missing', launch_missing)
        (ensured-IsTold _ (
          launch-IsTold P claims link_name path (ensure_provider claims ref h)
            (rw (missing', launch_missing) at done)))

  -- A start that returns the claims of a provider that had no instance under the link name has
  -- started one process and written to it the host data, encoded, and a line break; the data name
  -- the provider, the link name and the host, carry the secret that invocations are signed with,
  -- and list exactly the link definitions stored for that provider under that link name.
  pub start_provider-IsTold :
      (start_provider P link_name ref h).0 ≡ ok claims
      → find_instance claims.subject link_name h.providers ≡ none
      → IsTold P claims link_name h (start_provider P link_name ref h).1.trace
  unfolding start_provider
  start_provider-IsTold done missing =
      elim (Result-cases
        (context "failed to fetch provider" (P.fetch_provider ref link_name h.trace))) [
          | inl (e, p) ↦ absurd (ground arith)
          | inr ((path, c), p) ↦
              let went = start_provider-fetched P link_name ref h path c p in
              let (u, launched, returned) =
                bind-eq-ok (launch_missing P c link_name path) (λ _. pure c)
                  (ensure_provider c ref h) (rw went at done) in
              let same : c ≡ claims = ground (arith, returned) in
              let launched' : (launch_missing P claims link_name path
                    (ensure_provider claims ref h)).0
                  ≡ ok tt =
                rw same at launched in
              let went' : start_provider P link_name ref h
                  ≡ (launch_missing P claims link_name path >>= λ _. pure claims)
                      (ensure_provider claims ref h) =
                rw same at went in
              rw (went', launched') (launch_missing-IsTold path missing launched')
        ]
