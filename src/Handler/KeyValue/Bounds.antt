-- ===== src/Handler/KeyValue/Bounds.antt =====
-- The numbers that an increment passes between 64 and 32 bits.
use kasmcloud.Prelude.{
  ℕ, ◌^◌, ◌<◌, ℤ, pos, negsuc, String, ◌≡◌, ◌∙◌, refl, ap, inl, inr, Result, ok, err, Error, arith,
  is_empty, eq_iff, Bool-cases, Result-cases, context-eq-ok,
}
use kasmcloud.External.{Bytes}
use kasmcloud.External.Effects.{Trace}
use kasmcloud.External.Lattice.{Lattice}
use kasmcloud.External.Compat.{Compat}
use kasmcloud.Handler.{Handler, Shared}
use kasmcloud.Handler.Response.{decode_provider_response}
use kasmcloud.Map.{lookup}
use kasmcloud.Handler.Invoke.{call_operation}
use kasmcloud.Handler.KeyValue.{to_i32, to_unsigned, atomic, increment}

to_i32-bound : (n m : ℕ) → to_i32 n ≡ ok m → (n < 2 ^ 31) × (m ≡ n)
unfolding to_i32
to_i32-bound n m e = (ground arith, ground arith)

to_unsigned-pos : (i : ℤ) (n : ℕ) → to_unsigned i ≡ ok n → i ≡ pos n
unfolding to_unsigned
to_unsigned-pos (pos m) n e = ground arith
to_unsigned-pos (negsuc m) n e = absurd (ground arith)

module _ (L : Lattice) (K : Compat) (h : Handler) (shared : Shared) (key : String) (delta : ℕ)
    (t : Trace) where
  -- the call that asks the provider for exactly this increment
  abbrev pub asked : Result Error Bytes × Trace
  asked =
      call_operation L h shared (lookup atomic shared.targets)
        "wasmcloud:keyvalue/KeyValue.Increment"
        (K.encode_increment (record { key = key; value = delta })) t

  -- An increment that returns a number was of the default bucket and by less than 2 ^ 31; it has
  -- made one call, for exactly that key and delta, to the target selected for the atomic
  -- interface, and nothing else, and the number is the non-negative one that the answer to that
  -- call decodes to.
  pub increment-bounds :
      (bucket : String) (n : ℕ)
      → (increment L K h shared bucket key delta t).0 ≡ ok n
      → (bucket ≡ "")
        × (delta < 2 ^ 31)
        × ((res : Bytes) × (asked.0 ≡ ok res)
            × (decode_provider_response K.decode_i32 res ≡ ok (pos n)))
        × ((increment L K h shared bucket key delta t).1 ≡ asked.1)
  unfolding increment
  increment-bounds bucket n e = elim (Bool-cases (is_empty bucket)) [
    | inr other ↦ absurd (ground (arith, e, other))
    | inl empty ↦ elim (Result-cases (to_i32 delta)) [
      | inl (x, p) ↦ absurd (ground (arith, e, empty, p))
      | inr (value, p) ↦
          let (fits, same) = to_i32-bound delta value p in
          let p' : to_i32 delta ≡ ok delta = p ∙ ap ok same in
          let e' : (increment L K h shared bucket key delta t).0 ≡ ok n = e in
          elim (Result-cases asked.0) [
            | inl (x, q) ↦ absurd (let m : err x ≡ ok n = rw (empty, p', q) at e' in cc)
            | inr (res, q) ↦ elim (Result-cases (decode_provider_response K.decode_i32 res)) [
              | inl (x, r) ↦ absurd (let m : err x ≡ ok n = rw (empty, p', q, r) at e' in cc)
              | inr (new, r) ↦
                  let converted : to_unsigned new ≡ ok n =
                    context-eq-ok "result does not fit in `u64`" (to_unsigned new)
                      (rw (empty, p', q, r) at e') in
                  (
                    ground (arith, empty, eq_iff bucket ""),
                    fits,
                    (res, q, rw (← to_unsigned-pos new n converted) r),
                    rw (empty, p', q, r) refl,
                  )
            ]
          ]
    ]
  ]
