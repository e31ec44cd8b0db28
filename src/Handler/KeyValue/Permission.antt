-- ===== src/Handler/KeyValue/Permission.antt =====
-- What a key-value operation may do.
use kasmcloud.Prelude.{
  ℕ, ℤ, String, ◌≡◌, refl, inl, inr, Bool, Result, Error, lift, ensure, context, is_empty, eq_iff,
  Bool-cases,
}
use kasmcloud.Map.{lookup}
use kasmcloud.External.{Bytes}
use kasmcloud.External.Lattice.{Lattice}
use kasmcloud.External.Compat.{Compat, GetResponse}
use kasmcloud.Handler.{Handler, Shared}
use kasmcloud.Handler.Invoke.Safety.{KeepsTarget, Permitted}
use kasmcloud.Handler.Response.{decode_provider_response}
use kasmcloud.Handler.Guarded.{
  Guarded, lift-Guarded, ensure-Guarded, bind-Guarded, call_operation-Guarded,
}
use kasmcloud.Handler.KeyValue.{
  to_unsigned, atomic, readwrite, in_bucket, found, increment, get, set, delete, exists,
}

module _ (L : Lattice) (K : Compat) (h : Handler) (shared : Shared) where
  -- The bucket is the default one, and the actor may call what the interface is linked to.
  abbrev pub Allowed : String → String → String → Type 0
  Allowed bucket interface method =
      (bucket ≡ "") × Permitted h shared (lookup interface shared.targets) method

  in_bucket-Guarded :
      (bucket interface method : String) (encoded : Result Error Bytes)
      → KeepsTarget L
      → Guarded
          (Allowed bucket interface method)
          (in_bucket L K h shared bucket interface method encoded)
  in_bucket-Guarded bucket interface method encoded keeps = elim (Bool-cases (is_empty bucket)) [
    | inl e ↦ rw e (record {
      holds = λ t.
          elim ((call_operation-Guarded L h shared (lookup interface shared.targets) method encoded
              keeps).holds
            t) [ inl same ↦ inl same | inr permitted ↦ inr ((eq_iff bucket "").0 e, permitted) ];
    })
    | inr e ↦ rw e (record { holds = λ t. inl refl })
  ]

  -- Given that a new invocation carries the target it is made for, each key-value operation,
  -- increment, get, set, delete and exists, does nothing to the outside unless the bucket is the
  -- default one and the actor may call the entity that the target selected for the interface and
  -- the links of the key-value package resolve to.
  pub keyvalue-Guarded :
      (bucket key : String) (delta : ℕ) (read : Result Error String)
      → KeepsTarget L
      → Guarded
          (Allowed bucket atomic "wasmcloud:keyvalue/KeyValue.Increment")
          (increment L K h shared bucket key delta)
        × Guarded
            (Allowed bucket readwrite "wasmcloud:keyvalue/KeyValue.Get")
            (get L K h shared bucket key)
        × Guarded
            (Allowed bucket readwrite "wasmcloud:keyvalue/KeyValue.Set")
            (set L K h shared bucket key read)
        × Guarded
            (Allowed bucket readwrite "wasmcloud:keyvalue/KeyValue.Del")
            (delete L K h shared bucket key)
        × Guarded
            (Allowed bucket readwrite "wasmcloud:keyvalue/KeyValue.Contains")
            (exists L K h shared bucket key)
  unfolding increment get set delete exists
  keyvalue-Guarded bucket key delta read keeps = (
    bind-Guarded (ensure (is_empty bucket) _) _ (ensure-Guarded _ _) (λ _.
        bind-Guarded (lift _) _ (lift-Guarded _) (λ value.
          bind-Guarded _ _ (in_bucket-Guarded bucket atomic _ _ keeps) (λ res.
            bind-Guarded {A = ℤ} (lift (decode_provider_response K.decode_i32 res)) _
              (lift-Guarded (decode_provider_response K.decode_i32 res))
              (λ new. lift-Guarded (context "result does not fit in `u64`" (to_unsigned new)))))),
    bind-Guarded _ _ (in_bucket-Guarded bucket readwrite _ _ keeps) (λ res.
        bind-Guarded {A = GetResponse} (lift (decode_provider_response K.decode_get res)) _
          (lift-Guarded (decode_provider_response K.decode_get res))
          (λ r. lift-Guarded (found L K h shared r))),
    bind-Guarded (ensure (is_empty bucket) _) _ (ensure-Guarded _ _) (λ _.
        bind-Guarded (lift _) _ (lift-Guarded _) (λ buf.
          bind-Guarded _ _ (in_bucket-Guarded bucket readwrite _ _ keeps) (λ res. lift-Guarded _))),
    bind-Guarded _ _ (in_bucket-Guarded bucket readwrite _ _ keeps) (λ res.
        bind-Guarded {A = Bool} (lift (decode_provider_response K.decode_bool res)) _
          (lift-Guarded (decode_provider_response K.decode_bool res))
          (λ deleted. ensure-Guarded deleted "key not found")),
    bind-Guarded _ _ (in_bucket-Guarded bucket readwrite _ _ keeps) (λ res. lift-Guarded _),
  )
