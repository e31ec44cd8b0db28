-- ===== src/Host/Actors/Cases.antt =====
-- The two ways through `reconcile_actor`: it fails before it has touched the host, or it registers
-- the name and the group and goes on to scale the actor.
use kasmcloud.Prelude.{
  ℕ, String, ◌≡◌, ◌⊎◌, inl, inr, some, ok, anyhow, add_context, Result-cases, Option-cases, Fails,
  ◌>>=◌, pure,
}
use kasmcloud.Map.{lookup}
use kasmcloud.Map.Laws.{lookup-insert_self}
use kasmcloud.External.{Claims, ActorMetadata}
use kasmcloud.External.Platform.{Platform}
use kasmcloud.Host.{Host, ActorGroup}
use kasmcloud.Host.Actors.{
  register_key, ensure_group, scale_actor, reconcile_actor, fetch_actor, check_key, new_group,
}

abbrev pub prepared : String → String → Host → Host
prepared name subject h = ensure_group subject (register_key name subject h)

-- the group is there once it is ensured
pub ensure_group-group :
    (subject : String) (h : Host)
    → (g : ActorGroup) × (lookup subject (ensure_group subject h).actors ≡ some g)
unfolding ensure_group
ensure_group-group subject h = elim (Option-cases (lookup subject h.actors)) [
  | inl e ↦ (new_group subject h, rw (e, ensure_group) (lookup-insert_self subject _ h.actors))
  | inr (g, e) ↦ (g, rw (e, ensure_group) e)
]

module _ (P : Platform) (name actor_ref : String) (replica : ℕ) where
  abbrev pub Scales : Host → Type 0
  Scales h =
      (claims : Claims ActorMetadata) × (check_key P name claims.subject h ≡ ok tt)
      × (reconcile_actor P name actor_ref replica h
          ≡ (scale_actor P claims name actor_ref replica >>= λ _. pure claims)
              (prepared name claims.subject h))

  pub reconcile_actor_cases :
      (h : Host) → Fails (reconcile_actor P name actor_ref replica) h ⊎ Scales h
  unfolding reconcile_actor fetch_actor
  reconcile_actor_cases h = elim (Result-cases (P.fetch_actor actor_ref h.trace)) [
    | inl (e, p) ↦ inl (add_context "failed to fetch actor" e, rw p)
    | inr (file, p) ↦ elim (Result-cases (P.new_actor file)) [
      | inl (e, q) ↦ inl (add_context "failed to initialize actor" e, rw (p, q))
      | inr (actor, q) ↦ elim (Option-cases actor) [
        | inl r ↦ inl (anyhow "claims missing", rw (p, q, r))
        | inr (claims, r) ↦ elim (Result-cases (check_key P name claims.subject h)) [
          | inl (e, s) ↦ inl (e, rw (p, q, r, s))
          | inr (u, s) ↦ inr (claims, s, rw (p, q, r, s))
        ]
      ]
    ]
  ]
