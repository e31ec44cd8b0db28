-- ===== src/Handler/Invoke/Safety.antt =====
-- What `call_operation_with_payload` may have done by the time it returns.
use kasmcloud.Prelude.{
  String, ◌≡◌, sym, ap, ◌⊎◌, inl, inr, Option, List, Result, ok, Error, arith, ◌∙◌, Result-cases,
}
use kasmcloud.Map.{lookup}
use kasmcloud.External.{Bytes, KeyPair, WasmCloudEntity, TargetEntity, Invocation}
use kasmcloud.External.Effects.{Trace}
use kasmcloud.External.Lattice.{Lattice}
use kasmcloud.Handler.{Handler, Shared}
use kasmcloud.Handler.Capability.{ensure_actor_capability, MayCall, ensure_actor_capability_iff}
use kasmcloud.Handler.Target.{resolve_target}
use kasmcloud.Handler.Invoke.{package_of, prepare, call_operation_with_payload}

-- What wasmcloud_core documents of `Invocation::new`: it carries the target that it is given.
abbrev pub KeepsTarget : Lattice → Type 0
KeepsTarget L =
    (t : Trace) (ck hk : KeyPair) (o e : WasmCloudEntity) (op : String) (msg : Bytes)
    (hs : List (String × String)) (inv : Invocation)
    → L.new_invocation t ck hk o e op msg hs ≡ ok inv
    → inv.target ≡ e

-- An entity that the actor may call, and that the target and the operation resolve to.
pub record Permitted (h : Handler) (shared : Shared) (target : Option TargetEntity)
    (operation : String) : Type 0 where
  pub namespace : String
  pub entity : WasmCloudEntity
  pub parsed : package_of operation ≡ ok namespace
  pub resolved : resolve_target target (lookup namespace shared.links) shared.aliases ≡ ok entity
  pub may_call : MayCall h.claims.metadata entity.contract_id

module _ (L : Lattice) (h : Handler) (shared : Shared) (target : Option TargetEntity)
    (operation : String) (request : Bytes) where
  pub prepare-trace : (t : Trace) → (prepare L h shared target operation request t).1 ≡ t
  unfolding prepare
  prepare-trace t = ground arith

  abbrev resolved_in : String → Result Error WasmCloudEntity
  resolved_in ns = resolve_target target (lookup ns shared.links) shared.aliases

  abbrev invocation_for : Trace → WasmCloudEntity → Result Error Invocation
  invocation_for t ent =
      L.new_invocation t h.cluster_key h.host_key h.origin ent operation request (L.injector t)

  prepare-Permitted :
      (t : Trace) (inv : Invocation)
      → KeepsTarget L
      → (prepare L h shared target operation request t).0 ≡ ok inv
      → Permitted h shared target operation
  unfolding prepare
  prepare-Permitted t inv keeps e = elim (Result-cases (package_of operation)) [
    | inl (x, p) ↦ absurd (ground arith)
    | inr (ns, p) ↦ elim (Result-cases (resolved_in ns)) [
      | inl (x, q) ↦ absurd (ground arith)
      | inr (ent, q) ↦ elim (Result-cases (invocation_for t ent)) [
        | inl (x, r) ↦ absurd (ground arith)
        | inr (inv', r) ↦
            let to_ent : inv'.target ≡ ent = keeps t _ _ _ ent _ _ _ inv' r in
            record {
              namespace = ns;
              entity = ent;
              parsed = p;
              resolved = q;
              may_call = (ensure_actor_capability_iff _ _).0 (
                  ap (λ x. ensure_actor_capability h.claims.metadata x.contract_id) (sym to_ent)
                  ∙ ground arith);
            }
      ]
    ]
  ]

  -- Given that a new invocation carries the target it is made for, a call of an operation either
  -- does nothing at all to the outside, or the actor may call the contract of the entity that the
  -- target and the package of the operation resolve to.
  pub effects-Permitted :
      (t : Trace)
      → KeepsTarget L
      → ((call_operation_with_payload L h shared target operation request t).1 ≡ t)
        ⊎ Permitted h shared target operation
  unfolding call_operation_with_payload
  effects-Permitted t keeps =
      elim (Result-cases (prepare L h shared target operation request t).0) [
        | inl (e, p) ↦ inl (rw p (ap (λ x. x) (prepare-trace t)))
        | inr (inv, p) ↦ inr (prepare-Permitted t inv keeps p)
      ]
