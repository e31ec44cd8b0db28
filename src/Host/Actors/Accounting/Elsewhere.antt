-- ===== src/Host/Actors/Accounting/Elsewhere.antt =====
-- Link and provider operations start and stop no instances of actors.
use kasmcloud.Prelude.{
  ℕ, String, ◌≡◌, refl, inl, inr, [], ◌∷◌, arith, Result-cases, Option-cases, context,
}
use kasmcloud.Map.{lookup, insert}
use kasmcloud.External.{Bytes, Claims, ProviderMetadata, LinkDefinition}
use kasmcloud.External.Effects.{Trace, Effect}
use kasmcloud.External.Lattice.{Lattice}
use kasmcloud.External.Platform.{Platform}
use kasmcloud.Handler.{Links}
use kasmcloud.Host.{Host, ActorGroup}
use kasmcloud.Host.Links.{
  update_links, link_entity, unlink_entity, announce, store_link, drop_link, hash_of, add_linkdef,
  delete_linkdef,
}
use kasmcloud.Host.Providers.{
  find_instance, ensure_provider, host_data_for, feed, spawn_child, launch, launch_missing,
  start_provider, request_shutdown, stop_instance, stop_provider,
}
use kasmcloud.Host.Tables.{start_provider-SameTables, stop_provider-SameTables}
use kasmcloud.Host.Actors.Accounting.{served, stopped}
use kasmcloud.Host.Actors.Accounting.Balance.{IsBalanced, insert-IsBalanced, same-IsBalanced}

module _ (mark : String → ℕ) where
  -- no instance was set to serve, and none stopped
  abbrev Uncounted : Trace → Trace → Type 0
  Uncounted t t' = (served mark t' ≡ served mark t) × (stopped mark t' ≡ stopped mark t)

  module _ (P : Platform) where
    feed-Uncounted : (bytes : Bytes) (t : Trace) → Uncounted t (feed P bytes t).1
    unfolding feed
    feed-Uncounted bytes t = elim (Result-cases (P.take_stdin t)) [
      | inl (e, p) ↦ rw p (refl, refl)
      | inr (_, p) ↦ elim (Result-cases (P.write_stdin (P.base64 bytes) t)) [
        | inl (e, q) ↦ rw (p, q) (refl, refl)
        | inr (_, q) ↦
            elim (Result-cases (P.write_stdin (13 ∷ 10 ∷ []) (Effect.wrote (P.base64 bytes) ∷ t))) [
              | inl (e, r) ↦ rw (p, q, r) (refl, refl)
              | inr (_, r) ↦ rw (p, q, r) (refl, refl)
            ]
      ]
    ]

    spawn_child-Uncounted :
        (path id : String) (bytes : Bytes) (t : Trace)
        → Uncounted t (spawn_child P path id bytes t).1
    unfolding spawn_child
    spawn_child-Uncounted path id bytes t = elim (Result-cases (P.spawn path t)) [
      | inl (e, p) ↦ rw (p, spawn_child) (refl, refl)
      | inr (u, p) ↦
          let fed = feed-Uncounted bytes (Effect.spawned path id ∷ t) in
          elim (Result-cases (feed P bytes (Effect.spawned path id ∷ t)).0) [
            | inl (e, q) ↦ rw (p, spawn_child, q) fed
            | inr (w, q) ↦ rw (p, spawn_child, q) fed
          ]
    ]

    launch-Uncounted :
        (claims : Claims ProviderMetadata) (link_name path : String) (h : Host)
        → Uncounted h.trace (launch P claims link_name path h).1.trace
    unfolding launch
    launch-Uncounted claims link_name path h =
        elim (Result-cases (host_data_for P claims link_name (P.new_ulid h.trace) h)) [
          | inl (e, p) ↦ rw p (refl, refl)
          | inr (d, p) ↦ elim (Result-cases (P.encode_host_data d)) [
            | inl (e, q) ↦ rw (p, q) (refl, refl)
            | inr (bytes, q) ↦
                let spawned = spawn_child-Uncounted path (P.new_ulid h.trace) bytes h.trace in
                elim (Result-cases (spawn_child P path (P.new_ulid h.trace) bytes h.trace).0) [
                  | inl (e, r) ↦ rw (p, q, r) spawned
                  | inr (u, r) ↦ rw (p, q, r) spawned
                ]
          ]
        ]

    launch_missing-Uncounted :
        (claims : Claims ProviderMetadata) (link_name path : String) (h : Host)
        → Uncounted h.trace (launch_missing P claims link_name path h).1.trace
    unfolding launch_missing
    launch_missing-Uncounted claims link_name path h =
        elim (Option-cases (find_instance claims.subject link_name h.providers)) [
          | inl e ↦ rw (e, launch_missing) (launch-Uncounted claims link_name path h)
          | inr (i, e) ↦ rw (e, launch_missing) (refl, refl)
        ]

    trace-ensure_provider :
        (claims : Claims ProviderMetadata) (ref : String) (h : Host)
        → (ensure_provider claims ref h).trace ≡ h.trace
    unfolding ensure_provider
    trace-ensure_provider claims ref h = ground arith

    start_provider-Uncounted :
        (link_name ref : String) (h : Host)
        → Uncounted h.trace (start_provider P link_name ref h).1.trace
    unfolding start_provider ensure_provider
    start_provider-Uncounted link_name ref h =
        elim (Result-cases
          (context "failed to fetch provider" (P.fetch_provider ref link_name h.trace))) [
            | inl (e, p) ↦ rw p (refl, refl)
            | inr (f, p) ↦
                let ensured = ensure_provider f.1 ref h in
                let launched : Uncounted h.trace
                    (launch_missing P f.1 link_name f.0 ensured).1.trace =
                  rw (trace-ensure_provider f.1 ref h) at
                    (launch_missing-Uncounted f.1 link_name f.0 ensured) in
                elim (Result-cases (launch_missing P f.1 link_name f.0 ensured).0) [
                  | inl (e, q) ↦ rw (p, q) launched
                  | inr (u, q) ↦ rw (p, q) launched
                ]
          ]

    request_shutdown-Uncounted :
        (key link_name : String) (h : Host)
        → Uncounted h.trace (request_shutdown P key link_name h).trace
    unfolding request_shutdown
    request_shutdown-Uncounted key link_name h =
        elim (Result-cases (P.shutdown_payload h.host_key.public_key)) [
          | inl (e, p) ↦ rw (p, request_shutdown) (refl, refl)
          | inr (payload, p) ↦ rw (p, request_shutdown) (refl, refl)
        ]

    stop_provider-Uncounted :
        (link_name key : String) (h : Host)
        → Uncounted h.trace (stop_provider P link_name key h).1.trace
    unfolding stop_provider stop_instance
    stop_provider-Uncounted link_name key h = elim (Option-cases (lookup key h.providers)) [
      | inl e ↦ rw (e, stop_provider) (refl, refl)
      | inr (p, e) ↦ elim (Option-cases (lookup link_name p.instances)) [
        | inl f ↦ rw (e, stop_provider, f) (refl, refl)
        | inr (i, f) ↦
            rw (e, stop_provider, f)
              (request_shutdown-Uncounted key link_name
                (record h { trace = Effect.killed i.id ∷ h.trace }))
      ]
    ]

  Uncounted-IsBalanced :
      (h h' : Host)
      → h'.actors ≡ h.actors
      → Uncounted h.trace h'.trace
      → IsBalanced mark h
      → IsBalanced mark h'
  Uncounted-IsBalanced h h' actors (s, b) v = record {
    distinct = rw actors v.distinct;
    each = λ k g e. v.each k g (rw actors at e);
    balance = rw (actors, s, b) v.balance;
  }

  -- a change of the links of one group
  relinked-IsBalanced :
      (f : Links → Links) (id : String) (h h' : Host)
      → h'.actors ≡ update_links f id h.actors
      → Uncounted h.trace h'.trace
      → IsBalanced mark h
      → IsBalanced mark h'
  unfolding update_links
  relinked-IsBalanced f id h h' actors (s, b) v = elim (Option-cases (lookup id h.actors)) [
    | inl e ↦ Uncounted-IsBalanced h h' (rw actors (rw (e, update_links) refl)) (s, b) v
    | inr (g, e) ↦
        let changed : ActorGroup = record g { links = f g.links } in
        same-IsBalanced mark (record h { actors = insert id changed h.actors; trace = h'.trace }) h'
          (rw actors (rw (e, update_links) refl)) refl
          (insert-IsBalanced mark id g changed h h'.trace v e (v.each id g e) (omega (arith, s, b)))
  ]

  module _ (L : Lattice) (P : Platform) where
    announce-Uncounted :
        (ld : LinkDefinition) (event failure : String) (h : Host)
        → Uncounted h.trace (announce L P ld event failure h).1.trace
    unfolding announce
    announce-Uncounted ld event failure h = elim (Result-cases (P.encode_linkdef ld)) [
      | inl (e, p) ↦ rw (p, announce) (refl, refl)
      | inr (msgp, p) ↦ rw (p, announce) (refl, refl)
    ]

    announce-actors :
        (ld : LinkDefinition) (event failure : String) (h : Host)
        → (announce L P ld event failure h).1.actors ≡ h.actors
    unfolding announce
    announce-actors ld event failure h = ground arith

    pub add_linkdef-IsBalanced :
        (ld : LinkDefinition) (h : Host)
        → IsBalanced mark h
        → IsBalanced mark (add_linkdef L P ld h).1
    unfolding add_linkdef store_link
    add_linkdef-IsBalanced ld h v = elim (Option-cases (lookup (hash_of P ld) h.links)) [
      | inl e ↦
          rw (e, add_linkdef)
            (relinked-IsBalanced (link_entity ld) ld.actor_id h _ (announce-actors ld _ _ _)
              (announce-Uncounted ld _ _ (store_link L P ld h)) v)
      | inr (d, e) ↦ rw (e, add_linkdef) v
    ]

    pub delete_linkdef-IsBalanced :
        (ld : LinkDefinition) (h : Host)
        → IsBalanced mark h
        → IsBalanced mark (delete_linkdef L P ld h).1
    unfolding delete_linkdef drop_link
    delete_linkdef-IsBalanced ld h v = elim (Option-cases (lookup (hash_of P ld) h.links)) [
      | inl e ↦ rw (e, delete_linkdef) v
      | inr (d, e) ↦
          rw (e, delete_linkdef)
            (relinked-IsBalanced (unlink_entity d) d.actor_id h _ (announce-actors d _ _ _)
              (announce-Uncounted d _ _ (drop_link L P (hash_of P ld) d h)) v)
    ]

    pub start_provider-IsBalanced :
        (link_name ref : String) (h : Host)
        → IsBalanced mark h
        → IsBalanced mark (start_provider P link_name ref h).1
    start_provider-IsBalanced link_name ref h =
        Uncounted-IsBalanced h _ (start_provider-SameTables P link_name ref h).actors
          (start_provider-Uncounted P link_name ref h)

    pub stop_provider-IsBalanced :
        (link_name key : String) (h : Host)
        → IsBalanced mark h
        → IsBalanced mark (stop_provider P link_name key h).1
    stop_provider-IsBalanced link_name key h =
        Uncounted-IsBalanced h _ (stop_provider-SameTables P link_name key h).actors
          (stop_provider-Uncounted P link_name key h)
