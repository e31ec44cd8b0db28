-- ===== src/Host/Providers/Start.antt =====
-- What `start_provider` leaves behind, whether it returns or fails.
use kasmcloud.Prelude.{
  ◌+◌, String, ◌≡◌, ◌⊎◌, inl, inr, none, some, Result, ok, err, Error, add_context, arith,
  Result-cases, Option-cases, ◌>>=◌, pure, context, length, ◌==◌, eq_iff, eq_refl, if◌then◌else◌,
  context-eq-ok, sym, ◌∙◌, ◌∷◌,
}
use kasmcloud.Map.{Map, lookup, insert}
use kasmcloud.Map.Laws.{lookup-insert, lookup-insert_self}
use kasmcloud.Map.Sizes.{length-insert_new}
use kasmcloud.External.{Bytes, Child, Claims, ProviderMetadata}
use kasmcloud.External.Effects.{Trace, Effect}
use kasmcloud.External.Platform.{Platform}
use kasmcloud.Host.{Host, Provider, ProviderInstance}
use kasmcloud.Host.Providers.{
  find_instance, ensure_provider, new_provider, set_instance, host_data_for, feed, spawn_child,
  launch, launch_missing, start_provider,
}

pub find_instance-ensure_provider :
    (claims : Claims ProviderMetadata) (ref k l : String) (h : Host)
    → find_instance k l (ensure_provider claims ref h).providers ≡ find_instance k l h.providers
unfolding ensure_provider lookup
find_instance-ensure_provider claims ref k l h =
    elim (Option-cases (lookup claims.subject h.providers)) [
      | inl e ↦
          rw (e, ensure_provider)
            (ground (
              arith,
              eq_iff claims.subject k,
              lookup-insert claims.subject k (new_provider claims ref) h.providers,
            ))
      | inr (p, e) ↦ rw (e, ensure_provider)
    ]

-- once the entry is ensured it is there
pub ensure_provider-entry :
    (claims : Claims ProviderMetadata) (ref : String) (h : Host)
    → (p : Provider) × (lookup claims.subject (ensure_provider claims ref h).providers ≡ some p)
unfolding ensure_provider
ensure_provider-entry claims ref h = elim (Option-cases (lookup claims.subject h.providers)) [
  | inl e ↦ (
    new_provider claims ref,
    rw (e, ensure_provider) (lookup-insert_self claims.subject _ h.providers),
  )
  | inr (p, e) ↦ (p, rw (e, ensure_provider) e)
]

pub find_instance-set_instance :
    (key link_name k l : String) (i : ProviderInstance) (providers : Map Provider) (p : Provider)
    → lookup key providers ≡ some p
    → find_instance k l (set_instance key link_name i providers) ≡ (
        if key == k
        then (if link_name == l then some i else find_instance k l providers)
        else find_instance k l providers)
unfolding set_instance
find_instance-set_instance key link_name k l i providers p e = ground (
  arith,
  e,
  eq_iff key k,
  lookup-insert key k (record p { instances = insert link_name i p.instances }) providers,
  lookup-insert link_name l i p.instances,
)

module _ (P : Platform) (claims : Claims ProviderMetadata) (link_name path : String) where
  -- A launch fails and leaves the providers alone, or adds the instance.
  abbrev Launched : Host → Result Error (Unit {0}) × Host → Type 0
  Launched h r =
      ((e : Error) × (r.0 ≡ err e) × (r.1.providers ≡ h.providers))
      ⊎ ((i : ProviderInstance) × (P.spawn path h.trace ≡ ok i.child)
          × (r.0 ≡ ok tt)
          × (r.1.providers ≡ set_instance claims.subject link_name i h.providers))

  spawn_child-child :
      (path id : String) (bytes : Bytes) (t : Trace) (child : Child)
      → (spawn_child P path id bytes t).0 ≡ ok child
      → P.spawn path t ≡ ok child
  unfolding spawn_child
  spawn_child-child path id bytes t child done = elim (Result-cases (P.spawn path t)) [
    | inl (e, p) ↦ absurd (ground arith)
    | inr (c, p) ↦ elim (Result-cases (feed P bytes (Effect.spawned path id ∷ t)).0) [
      | inl (e, q) ↦ absurd (ground arith)
      | inr (w, q) ↦ p ∙ (rw (p, spawn_child, q) at done)
    ]
  ]

  launch-Launched : (h : Host) → Launched h (launch P claims link_name path h)
  unfolding launch
  launch-Launched h =
      elim (Result-cases (host_data_for P claims link_name (P.new_ulid h.trace) h)) [
        | inl (e, p) ↦ inl (e, rw p, rw p)
        | inr (d, p) ↦ elim (Result-cases (P.encode_host_data d)) [
          | inl (e, q) ↦
              inl (add_context "failed to serialize provider data" e, rw (p, q), rw (p, q))
          | inr (bytes, q) ↦
              elim (Result-cases (spawn_child P path (P.new_ulid h.trace) bytes h.trace).0) [
                | inl (e, r) ↦ inl (e, rw (p, q, r), rw (p, q, r))
                | inr (child, r) ↦ inr (
                  record { child = child; id = P.new_ulid h.trace },
                  spawn_child-child path (P.new_ulid h.trace) bytes h.trace child r,
                  rw (p, q, r),
                  rw (p, q, r),
                )
              ]
        ]
      ]

  launch_missing-Launched :
      (h : Host)
      → ((i : ProviderInstance) × (find_instance claims.subject link_name h.providers ≡ some i)
          × (launch_missing P claims link_name path h ≡ (ok tt, h)))
        ⊎ ((find_instance claims.subject link_name h.providers ≡ none)
            × Launched h (launch_missing P claims link_name path h))
  unfolding launch_missing
  launch_missing-Launched h =
      elim (Option-cases (find_instance claims.subject link_name h.providers)) [
        | inl e ↦ inr (e, rw (e, launch_missing) (launch-Launched h))
        | inr (i, e) ↦ inl (i, e, rw (e, launch_missing))
      ]

trace-ensure_provider :
    (claims : Claims ProviderMetadata) (ref : String) (h : Host)
    → (ensure_provider claims ref h).trace ≡ h.trace
unfolding ensure_provider
trace-ensure_provider claims ref h = ground arith

module _ (P : Platform) (link_name ref : String) (h : Host) where
  abbrev pub fetched : Result Error (String × Claims ProviderMetadata)
  fetched = context "failed to fetch provider" (P.fetch_provider ref link_name h.trace)

  pub start_provider-fetched :
      (path : String) (claims : Claims ProviderMetadata)
      → fetched ≡ ok (path, claims)
      → start_provider P link_name ref h
        ≡ (launch_missing P claims link_name path >>= λ _. pure claims)
            (ensure_provider claims ref h)
  unfolding start_provider
  start_provider-fetched path claims e = rw e

  -- The start went through the entry: the instance was there, or the launch failed, or it worked.
  abbrev pub Outcome :
      String → Claims ProviderMetadata → Result Error (Claims ProviderMetadata) × Host → Type 0
  Outcome path claims r =
      let before = (ensure_provider claims ref h).providers in
      ((i : ProviderInstance) × (find_instance claims.subject link_name before ≡ some i)
        × (r.0 ≡ ok claims)
        × (r.1.providers ≡ before))
      ⊎ (((e : Error) × (r.0 ≡ err e) × (r.1.providers ≡ before))
          ⊎ ((i : ProviderInstance) × (find_instance claims.subject link_name before ≡ none)
              × (P.spawn path h.trace ≡ ok i.child)
              × (r.0 ≡ ok claims)
              × (r.1.providers ≡ set_instance claims.subject link_name i before)))

  pub start_provider-Outcome :
      (path : String) (claims : Claims ProviderMetadata)
      → fetched ≡ ok (path, claims)
      → Outcome path claims (start_provider P link_name ref h)
  start_provider-Outcome path claims e =
      rw (start_provider-fetched path claims e)
        (elim (launch_missing-Launched P claims link_name path (ensure_provider claims ref h)) [
          | inl (i, found, r) ↦ inl (i, found, rw r, rw r)
          | inr (missing, inl (x, r, same)) ↦ inr (inl (x, rw r, rw r same))
          | inr (missing, inr (i, born, r, set)) ↦
              inr
                (inr (i, missing, rw (trace-ensure_provider claims ref h) at born, rw r, rw r set))
        ])

  -- Starting a provider, however it ends, leaves every instance that was running, of this provider
  -- and of all others, as it was.
  pub start_provider-keeps :
      (k l : String) (i : ProviderInstance)
      → find_instance k l h.providers ≡ some i
      → find_instance k l (start_provider P link_name ref h).1.providers ≡ some i
  unfolding start_provider
  start_provider-keeps k l i running = elim (Result-cases fetched) [
    | inl (e, p) ↦ rw p running
    | inr (f, p) ↦
        let (q, there) = ensure_provider-entry f.1 ref h in
        let before : find_instance k l (ensure_provider f.1 ref h).providers ≡ some i =
          rw (find_instance-ensure_provider f.1 ref k l h) running in
        elim (start_provider-Outcome f.0 f.1 p) [
          | inl (j, _, _, same) ↦ rw same before
          | inr (inl (e, _, same)) ↦ rw same before
          | inr (inr (j, missing, _, _, set)) ↦
              rw (set, find_instance-set_instance f.1.subject link_name k l j _ q there)
                (kept f.1 j before missing)
        ]
  ]
    where
      kept :
          (claims : Claims ProviderMetadata) (j : ProviderInstance)
          → find_instance k l (ensure_provider claims ref h).providers ≡ some i
          → find_instance claims.subject link_name (ensure_provider claims ref h).providers ≡ none
          → (if claims.subject == k
              then (if link_name == l
                  then some j
                  else find_instance k l (ensure_provider claims ref h).providers)
              else find_instance k l (ensure_provider claims ref h).providers)
            ≡ some i
      kept claims j b m = ground (arith, eq_iff claims.subject k, eq_iff link_name l)

  -- the process was spawned for this instance, from the image that was fetched
  abbrev pub IsSpawned : Claims ProviderMetadata → ProviderInstance → Type 0
  IsSpawned claims i =
      (path : String) × (P.fetch_provider ref link_name h.trace ≡ ok (path, claims))
      × (P.spawn path h.trace ≡ ok i.child)

  -- A start of a provider that returns claims leaves an instance for their public key and the link
  -- name: the one that was there before, or, where none was, one whose child is the process that
  -- was spawned from the path that the registry gave with those claims.
  pub start_provider-runs :
      (claims : Claims ProviderMetadata)
      → (start_provider P link_name ref h).0 ≡ ok claims
      → (i : ProviderInstance) × (find_instance claims.subject link_name
            (start_provider P link_name ref h).1.providers
          ≡ some i)
        × ((find_instance claims.subject link_name h.providers ≡ some i)
            ⊎ ((find_instance claims.subject link_name h.providers ≡ none) × IsSpawned claims i))
  unfolding start_provider
  start_provider-runs claims e = elim (Result-cases fetched) [
    | inl (x, p) ↦ absurd (ground arith)
    | inr (f, p) ↦
        let (q, there) = ensure_provider-entry f.1 ref h in
        let before = find_instance-ensure_provider f.1 ref f.1.subject link_name h in
        elim (start_provider-Outcome f.0 f.1 p) [
          | inl (j, found, r, same) ↦
              let c : f.1 ≡ claims = ground (arith, r) in
              (j, rw (same, ← c) found, inl (rw (← c) (sym before ∙ found)))
          | inr (inl (x, r, same)) ↦ absurd (ground (arith, r))
          | inr (inr (j, missing, born, r, set)) ↦
              let c : f.1 ≡ claims = ground (arith, r) in
              (
                j,
                rw (
                  set,
                  ← c,
                  find_instance-set_instance f.1.subject link_name f.1.subject link_name j _ q
                      there,
                  eq_refl f.1.subject,
                  eq_refl link_name,
                ),
                inr (
                  rw (← c) (sym before ∙ missing),
                  (
                    f.0,
                    rw (← c) (
                        context-eq-ok "failed to fetch provider"
                          (P.fetch_provider ref link_name h.trace) p),
                    born,
                  ),
                ),
              )
        ]
  ]

  -- A start that fails after the image was fetched, of a provider that was not there before,
  -- leaves a provider with no instance, and the host holds one provider more.
  pub start_provider_phantom :
      (path : String) (claims : Claims ProviderMetadata) (e : Error)
      → fetched ≡ ok (path, claims)
      → lookup claims.subject h.providers ≡ none
      → (start_provider P link_name ref h).0 ≡ err e
      → (length (start_provider P link_name ref h).1.providers ≡ length h.providers + 1)
        × (lookup claims.subject (start_provider P link_name ref h).1.providers
            ≡ some (new_provider claims ref))
  unfolding ensure_provider
  start_provider_phantom path claims e f fresh failed =
      elim (start_provider-Outcome path claims f) [
        | inl (j, _, r, _) ↦ absurd (ground arith)
        | inr (inl (x, r, same)) ↦
            rw (same, fresh, ensure_provider)
              (
                length-insert_new claims.subject _ h.providers fresh,
                lookup-insert_self claims.subject _ h.providers,
              )
        | inr (inr (j, _, _, r, _)) ↦ absurd (ground arith)
      ]
