-- ===== src/Tests/Blobs.antt =====
-- Witnesses for the theorems on the blobstore.
use kasmcloud.Prelude.{◌≡◌, refl, List, [], ◌∷◌, ok}
use kasmcloud.Map.{lookup}
use kasmcloud.External.{Bytes}
use kasmcloud.External.Blobs.{ItemResult}
use kasmcloud.Handler.Capability.{ensure_actor_capability}
use kasmcloud.Handler.Target.{resolve_target}
use kasmcloud.Handler.Invoke.{
  package_of, prepare, chunk_invocation, request_of, read_response, response_body, to_usize,
  call_operation_with_payload, call_operation,
}
use kasmcloud.Handler.Response.{decode_provider_response}
use kasmcloud.Handler.Guarded.{Guarded}
use kasmcloud.Handler.Blobstore.{
  ask_store, check_items, create_container, container_exists, delete_container, container_info,
  get_data, has_object, write_data, delete_objects, list_objects, object_info,
}
use kasmcloud.Handler.Blobstore.Permission.{MayStore, blobstore-Guarded}
use kasmcloud.Handler.Blobstore.Outcomes.{AllDeleted, removal, delete_objects-AllDeleted}
use kasmcloud.Actor.{
  handle_call, handle_invocation, accept, check_length, request_body, respond, chunk_response,
}
use kasmcloud.Tests.Fixture.{handler, lattice, blobs, with_blobs}
use kasmcloud.Tests.Handlers.{lattice-KeepsTarget}

blobstore-Guarded_example :
    Guarded
      (MayStore lattice blobs handler with_blobs lattice-KeepsTarget
        "wasmcloud:blobstore/Blobstore.GetObject")
      (get_data lattice blobs handler with_blobs "photos" "cat" 0 9)
    × Guarded
        (MayStore lattice blobs handler with_blobs lattice-KeepsTarget
          "wasmcloud:blobstore/Blobstore.ObjectExists")
        (has_object lattice blobs handler with_blobs "photos" "cat")
    × Guarded
        (MayStore lattice blobs handler with_blobs lattice-KeepsTarget
          "wasmcloud:blobstore/Blobstore.PutObject")
        (write_data lattice blobs handler with_blobs "photos" "cat" (ok (1 ∷ [])))
    × Guarded
        (MayStore lattice blobs handler with_blobs lattice-KeepsTarget
          "wasmcloud:blobstore/Blobstore.RemoveObjects")
        (delete_objects lattice blobs handler with_blobs "photos" ("cat" ∷ []))
    × Guarded
        (MayStore lattice blobs handler with_blobs lattice-KeepsTarget
          "wasmcloud:blobstore/Blobstore.GetObjectInfo")
        (object_info lattice blobs handler with_blobs "photos" "cat")
    × Guarded
        (MayStore lattice blobs handler with_blobs lattice-KeepsTarget
          "wasmcloud:blobstore/Blobstore.CreateContainer")
        (create_container lattice blobs handler with_blobs "photos")
    × Guarded
        (MayStore lattice blobs handler with_blobs lattice-KeepsTarget
          "wasmcloud:blobstore/Blobstore.ContainerExists")
        (container_exists lattice blobs handler with_blobs "photos")
    × Guarded
        (MayStore lattice blobs handler with_blobs lattice-KeepsTarget
          "wasmcloud:blobstore/Blobstore.DeleteContainer")
        (delete_container lattice blobs handler with_blobs "photos")
    × Guarded
        (MayStore lattice blobs handler with_blobs lattice-KeepsTarget
          "wasmcloud:blobstore/Blobstore.GetContainerInfo")
        (container_info lattice blobs handler with_blobs "photos")
    × Guarded
        (MayStore lattice blobs handler with_blobs lattice-KeepsTarget
          "wasmcloud:blobstore/Blobstore.ListObjects")
        (list_objects lattice blobs handler with_blobs "photos")
blobstore-Guarded_example =
    blobstore-Guarded lattice blobs handler with_blobs lattice-KeepsTarget "photos" "cat"
      ("cat" ∷ []) 0 9 (ok (1 ∷ []))

delete_objects-AllDeleted_example :
    (res : Bytes) × (items : List ItemResult) × ((removal lattice blobs handler with_blobs "photos"
        ("cat" ∷ [])
        []).0
      ≡ ok res)
    × (decode_provider_response blobs.decode_items res ≡ ok items)
    × AllDeleted items
    × ((delete_objects lattice blobs handler with_blobs "photos" ("cat" ∷ []) []).1
        ≡ (removal lattice blobs handler with_blobs "photos" ("cat" ∷ []) []).1)
unfolding delete_objects ask_store check_items call_operation call_operation_with_payload prepare
    package_of resolve_target ensure_actor_capability lookup chunk_invocation request_of
    read_response response_body to_usize decode_provider_response handle_call handle_invocation
    accept check_length request_body respond chunk_response
delete_objects-AllDeleted_example =
    delete_objects-AllDeleted lattice blobs handler with_blobs "photos" ("cat" ∷ []) [] refl
