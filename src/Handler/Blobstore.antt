-- ===== src/Handler/Blobstore.antt =====
-- `impl Blobstore for Handler` of handler.rs. A value that is written comes as the outcome of
-- reading it to its end, and one that is read as its bytes. The text that anyhow makes for a bare
-- condition is the condition alone.
pub mod Permission
pub mod Outcomes
use kasmcloud.Prelude.{
  ℕ, ◌-◌, ◌^◌, ℤ, String, Bool, true, false, Option, none, some, List, [], ◌∷◌, map, Result, ok,
  err, Error, anyhow, Action, pure, raise, lift, ensure, context, add_context, ◌>>=◌, ◌>>◌, length,
  format, unwrap_or, is_some, not, ltb, ◌==◌, if◌then◌else◌,
}
use kasmcloud.Map.{lookup}
use kasmcloud.External.{Bytes}
use kasmcloud.External.Effects.{Trace}
use kasmcloud.External.Lattice.{Lattice}
use kasmcloud.External.Blobs.{
  Blobs, ContainerMetadata, GetObjectRequest, Chunk, GetObjectResponse, ContainerObject,
  RemoveObjectsRequest, ItemResult, ListObjectsRequest, ListObjectsResponse, ObjectMetadata,
}
use kasmcloud.Handler.{Handler, Shared}
use kasmcloud.Handler.Invoke.{call_operation}
use kasmcloud.Handler.Response.{decode_provider_response, decode_empty_provider_response}
use kasmcloud.Handler.KeyValue.{to_unsigned}

-- `TargetInterface::WasiBlobstoreBlobstore`
abbrev pub blobstore : String
blobstore = "WasiBlobstoreBlobstore"

-- blobstore::container::{ContainerMetadata, ObjectMetadata} of wasmcloud_runtime
pub record ContainerInfo : Type 0 where
  pub name : String
  pub created_at : ℕ

pub record ObjectInfo : Type 0 where
  pub name : String
  pub container : String
  pub size : ℕ
  pub created_at : ℕ

abbrev seconds : Option ℤ → Result Error (Option ℕ)
seconds none = ok none
seconds (some sec) = elim (to_unsigned sec) [ ok n ↦ ok (some n) | err e ↦ err e ]

unfoldable pub read_container : ContainerMetadata → Result Error ContainerInfo
read_container m = elim (context "timestamp seconds do not fit in `u64`" (seconds m.created_at)) [
  | err e ↦ err e
  | ok created_at ↦ ok (record { name = m.container_id; created_at = unwrap_or created_at 0 })
]

abbrev read_chunk : String → String → Chunk → Result Error (Bytes × ℕ)
read_chunk container name c =
    if c.object_id == name
    then (if c.container_id == container
        then ok (c.bytes, length c.bytes)
        else err (anyhow "Condition failed: `container_id == container`"))
    else err (anyhow "Condition failed: `object_id == name`")

abbrev read_success : String → String → Bool → Option Chunk → Result Error (Bytes × ℕ)
read_success container name false chunk = err (anyhow "failed to get object response")
read_success container name true none = ok ([], 0)
read_success container name true (some c) = read_chunk container name c

abbrev read_outcome :
    String → String → Option String → Bool → Option Chunk → Result Error (Bytes × ℕ)
read_outcome container name (some e) success chunk =
    err (add_context "failed to get object response" (anyhow e))
read_outcome container name none success chunk = read_success container name success chunk

unfoldable pub read_object : String → String → GetObjectResponse → Result Error (Bytes × ℕ)
read_object container name r = read_outcome container name r.error r.success r.initial_chunk

-- The first item that was not deleted is the error.
abbrev pub check_item : ItemResult → Option String → Result Error (Unit {0})
check_item item (some e) = err (anyhow e)
check_item item none =
    if item.success
    then ok tt
    else err (anyhow (format ("failed to delete object `" ∷ item.key ∷ "`" ∷ [])))

unfoldable pub check_items : List ItemResult → Result Error (Unit {0})
check_items [] = ok tt
check_items (item ∷ items) =
    let rest = check_items items in
    elim (check_item item item.error) [ err e ↦ err e | ok _ ↦ rest ]

unfoldable pub read_list : ListObjectsResponse → Result Error (List String)
read_list r =
    if r.is_last
    then (if is_some r.continuation
        then err (anyhow "chunked responses not supported")
        else ok (map (λ o. ObjectMetadata.object_id o) r.objects))
    else err (anyhow "Condition failed: `is_last`")

abbrev pub no_stream : Option String → Result Error (Unit {0})
no_stream none = ok tt
no_stream (some _) = err (anyhow "provider returned an unexpected stream ID")

abbrev pub info_of : ObjectMetadata → ObjectInfo
info_of m = record {
  name = m.object_id;
  container = m.container_id;
  size = m.content_length;
  created_at = 0;
}

module _ (L : Lattice) (B : Blobs) (h : Handler) (shared : Shared) where
  -- `call_operation` at the target selected for the blobstore, and a reading of the response
  unfoldable pub ask_store :
      {A : Type 0} → String → Result Error Bytes → (Bytes → Result Error A) → Action Trace Error A
  ask_store method encoded read = do
    res ← call_operation L h shared (lookup blobstore shared.targets) method encoded
    lift (read res)

  -- the response decoded, and what is made of it
  abbrev pub decoded :
      {A B : Type 0} → (Bytes → Result Error A) → (A → Result Error B) → Bytes → Result Error B
  decoded decode read res = elim (decode_provider_response decode res) [
    | err e ↦ err e
    | ok a ↦ read a
  ]

  unfoldable pub create_container : String → Action Trace Error (Unit {0})
  create_container name =
      ask_store "wasmcloud:blobstore/Blobstore.CreateContainer" (B.encode_name name)
        (decode_empty_provider_response B.decode_unit)

  unfoldable pub container_exists : String → Action Trace Error Bool
  container_exists name =
      ask_store "wasmcloud:blobstore/Blobstore.ContainerExists" (B.encode_name name)
        (decode_provider_response B.decode_bool)

  unfoldable pub delete_container : String → Action Trace Error (Unit {0})
  delete_container name =
      ask_store "wasmcloud:blobstore/Blobstore.DeleteContainer" (B.encode_name name)
        (decode_empty_provider_response B.decode_unit)

  unfoldable pub container_info : String → Action Trace Error ContainerInfo
  container_info name =
      ask_store "wasmcloud:blobstore/Blobstore.GetContainerInfo" (B.encode_name name)
        (decoded B.decode_container read_container)

  unfoldable pub get_data : String → String → ℕ → ℕ → Action Trace Error (Bytes × ℕ)
  get_data container name start end =
      ask_store "wasmcloud:blobstore/Blobstore.GetObject"
        (B.encode_get (record {
          object_id = name;
          container_id = container;
          range_start = some start;
          range_end = some end;
        }))
        (decoded B.decode_get (read_object container name))

  unfoldable pub has_object : String → String → Action Trace Error Bool
  has_object container name =
      ask_store "wasmcloud:blobstore/Blobstore.ObjectExists"
        (B.encode_object (record { container_id = container; object_id = name }))
        (decode_provider_response B.decode_bool)

  unfoldable pub write_data : String → String → Result Error Bytes → Action Trace Error (Unit {0})
  write_data container name value = do
    bytes ← lift (context "failed to read bytes" value)
    ask_store "wasmcloud:blobstore/Blobstore.PutObject"
        (B.encode_put (record {
          object_id = name;
          container_id = container;
          bytes = bytes;
          offset = 0;
          is_last = true;
        }))
        (decoded B.decode_put no_stream)

  unfoldable pub delete_objects : String → List String → Action Trace Error (Unit {0})
  delete_objects container names =
      ask_store "wasmcloud:blobstore/Blobstore.RemoveObjects"
        (B.encode_remove (record { container_id = container; objects = names }))
        (decoded B.decode_items check_items)

  unfoldable pub list_objects : String → Action Trace Error (List String)
  list_objects container =
      ask_store "wasmcloud:blobstore/Blobstore.ListObjects"
        (B.encode_list (record { container_id = container; max_items = some (2 ^ 32 - 1) }))
        (decoded B.decode_list read_list)

  -- The container is not sent.
  unfoldable pub object_info : String → String → Action Trace Error ObjectInfo
  object_info container name =
      ask_store "wasmcloud:blobstore/Blobstore.GetObjectInfo" (B.encode_name name)
        (decoded B.decode_object (λ m. ok (info_of m)))
