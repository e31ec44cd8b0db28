-- ===== src/Handler/Messaging/Permission.antt =====
-- What a messaging or a logging operation may do.
use kasmcloud.Prelude.{
  ℕ, String, refl, inl, inr, Option, [], ◌∷◌, pure, lift, ltb, Bool-cases, Result-cases,
}
use kasmcloud.Map.{lookup}
use kasmcloud.External.{Bytes}
use kasmcloud.External.Lattice.{Lattice}
use kasmcloud.External.Compat.{Compat, ReplyMessage}
use kasmcloud.External.Effects.{LogLevel}
use kasmcloud.Handler.{Handler, Shared}
use kasmcloud.Handler.Capability.{ensure_actor_capability, MayCall, ensure_actor_capability_iff}
use kasmcloud.Handler.Logging.{log}
use kasmcloud.Handler.Invoke.Safety.{KeepsTarget, Permitted}
use kasmcloud.Handler.Response.{decode_provider_response}
use kasmcloud.Handler.Guarded.{Guarded, lift-Guarded, bind-Guarded, call_operation-Guarded}
use kasmcloud.Handler.Messaging.{BrokerMessage, consumer, request, request_multi, publish}

log-Guarded :
    (h : Handler) (logging : String) (level : LogLevel) (context text : String)
    → Guarded (MayCall h.claims.metadata logging) (log logging h level context text)
unfolding log
log-Guarded h logging level context text =
    elim (Result-cases (ensure_actor_capability h.claims.metadata logging)) [
      | inl (e, p) ↦ record { holds = λ t. inl (rw p refl) }
      | inr (u, p) ↦ record {
        holds = λ t. inr ((ensure_actor_capability_iff h.claims.metadata logging).0 p);
      }
    ]

module _ (L : Lattice) (K : Compat) (h : Handler) (shared : Shared) (keeps : KeepsTarget L) where
  abbrev MayReach : String → Type 0
  MayReach method = Permitted h shared (lookup consumer shared.targets) method

  request-Guarded :
      (subject : String) (body : Option Bytes) (timeout : ℕ)
      → Guarded
          (MayReach "wasmcloud:messaging/Messaging.Request")
          (request L K h shared subject body timeout)
  unfolding request
  request-Guarded subject body timeout = bind-Guarded (lift _) _ (lift-Guarded _) (λ timeout_ms.
      bind-Guarded _ _
        (call_operation-Guarded L h shared (lookup consumer shared.targets) _ _ keeps)
        (λ res.
          bind-Guarded {A = ReplyMessage} (lift (decode_provider_response K.decode_reply res)) _
            (lift-Guarded (decode_provider_response K.decode_reply res))
            (λ reply. record { holds = λ t. inl refl })))

  -- Given that a new invocation carries the target it is made for, a request of any number of
  -- results and a publication do nothing to the outside unless the actor may call the entity that
  -- the target selected for messaging and the links of the messaging package resolve to; and an
  -- entry for the log is made only if the claims of the actor allow the logging contract.
  pub messaging-Guarded :
      (message : BrokerMessage) (timeout max_results : ℕ) (logging : String) (level : LogLevel)
      (context text : String)
      → Guarded
          (MayReach "wasmcloud:messaging/Messaging.Request")
          (request_multi L K h shared message.subject message.body timeout max_results)
        × Guarded (MayReach "wasmcloud:messaging/Messaging.Publish") (publish L K h shared message)
        × Guarded (MayCall h.claims.metadata logging) (log logging h level context text)
  unfolding request_multi publish
  messaging-Guarded message timeout max_results logging level context text = (
    elim (Bool-cases (ltb max_results 2)) [
      | inl e ↦
          rw (e, request_multi)
            (bind-Guarded _ (λ res. pure (res ∷ []))
              (request-Guarded message.subject message.body timeout)
              (λ res. record { holds = λ t. inl refl }))
      | inr e ↦ rw (e, request_multi) (record { holds = λ t. inl refl })
    ],
    bind-Guarded _ _ (call_operation-Guarded L h shared (lookup consumer shared.targets) _ _ keeps)
        (λ res. lift-Guarded _),
    log-Guarded h logging level context text,
  )
