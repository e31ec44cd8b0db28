-- ===== src/Handler/Blobstore/Outcomes.antt =====
-- What an answer of a blobstore provider comes to.
use kasmcloud.Prelude.{
  String, ◌≡◌, inl, inr, true, none, List, [], ◌∷◌, Result, ok, Error, refl, arith, Option-cases,
  Bool-cases, Result-cases, bind-eq-ok,
}
use kasmcloud.Map.{lookup}
use kasmcloud.External.{Bytes}
use kasmcloud.External.Effects.{Trace}
use kasmcloud.External.Lattice.{Lattice}
use kasmcloud.External.Blobs.{Blobs, ItemResult}
use kasmcloud.Handler.{Handler, Shared}
use kasmcloud.Handler.Invoke.{call_operation}
use kasmcloud.Handler.Response.{decode_provider_response}
use kasmcloud.Handler.Blobstore.{blobstore, ask_store, check_items, delete_objects}

-- Every item was deleted, without an error.
pub data AllDeleted : List ItemResult → Type 0 where
  none_left : AllDeleted []
  one_more :
      {item : ItemResult} {items : List ItemResult}
      → item.error ≡ none
      → item.success ≡ true
      → AllDeleted items
      → AllDeleted (item ∷ items)

check_items-AllDeleted : (items : List ItemResult) → check_items items ≡ ok tt → AllDeleted items
unfolding check_items
check_items-AllDeleted [] e = none_left
check_items-AllDeleted (item ∷ items) e = elim (Option-cases item.error) [
  | inr (x, f) ↦ absurd (ground arith)
  | inl f ↦ elim (Bool-cases item.success) [
    | inr g ↦ absurd (ground arith)
    | inl g ↦ one_more f g (check_items-AllDeleted items (ground arith))
  ]
]

module _ (L : Lattice) (B : Blobs) (h : Handler) (shared : Shared) (container : String)
    (names : List String) (t : Trace) where
  -- the call that asks the provider to remove exactly these objects of the container
  abbrev pub removal : Result Error Bytes × Trace
  removal =
      call_operation L h shared (lookup blobstore shared.targets)
        "wasmcloud:blobstore/Blobstore.RemoveObjects"
        (B.encode_remove (record { container_id = container; objects = names })) t

  -- A deletion of objects that returns success has asked the provider, in one call to the target
  -- selected for the blobstore, to remove exactly these objects of the container, has done nothing
  -- else to the outside, and has had the answer to that call decode to results of which every one
  -- is a success without an error.
  pub delete_objects-AllDeleted :
      (delete_objects L B h shared container names t).0 ≡ ok tt
      → (res : Bytes) × (items : List ItemResult) × (removal.0 ≡ ok res)
        × (decode_provider_response B.decode_items res ≡ ok items)
        × AllDeleted items
        × ((delete_objects L B h shared container names t).1 ≡ removal.1)
  unfolding delete_objects ask_store
  delete_objects-AllDeleted e =
      let (res, answered, read) =
        bind-eq-ok
          (call_operation L h shared (lookup blobstore shared.targets)
            "wasmcloud:blobstore/Blobstore.RemoveObjects"
            (B.encode_remove (record { container_id = container; objects = names })))
          _ t e in
      elim (Result-cases (decode_provider_response B.decode_items res)) [
        | inl (x, p) ↦ absurd (ground arith)
        | inr (items, p) ↦
            (res, items, answered, p, check_items-AllDeleted items (ground arith), rw answered refl)
      ]
