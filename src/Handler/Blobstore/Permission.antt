-- ===== src/Handler/Blobstore/Permission.antt =====
-- What a blobstore operation may do.
use kasmcloud.Prelude.{ℕ, String, List, Result, Error, lift, context}
use kasmcloud.Map.{lookup}
use kasmcloud.External.{Bytes}
use kasmcloud.External.Lattice.{Lattice}
use kasmcloud.External.Blobs.{Blobs}
use kasmcloud.Handler.{Handler, Shared}
use kasmcloud.Handler.Invoke.{call_operation}
use kasmcloud.Handler.Invoke.Safety.{KeepsTarget, Permitted}
use kasmcloud.Handler.Guarded.{Guarded, lift-Guarded, bind-Guarded, call_operation-Guarded}
use kasmcloud.Handler.Blobstore.{
  blobstore, ask_store, create_container, container_exists, delete_container, container_info,
  get_data, has_object, write_data, delete_objects, list_objects, object_info,
}

module _ (L : Lattice) (B : Blobs) (h : Handler) (shared : Shared) (keeps : KeepsTarget L) where
  -- The actor may call what the blobstore interface is linked to.
  abbrev pub MayStore : String → Type 0
  MayStore method = Permitted h shared (lookup blobstore shared.targets) method

  ask_store-Guarded :
      {A : Type 0} (method : String) (encoded : Result Error Bytes) (read : Bytes → Result Error A)
      → Guarded (MayStore method) (ask_store L B h shared method encoded read)
  unfolding ask_store
  ask_store-Guarded method encoded read =
      bind-Guarded (call_operation L h shared (lookup blobstore shared.targets) method encoded)
        (λ res. lift (read res))
        (call_operation-Guarded L h shared (lookup blobstore shared.targets) method encoded keeps)
        (λ res. lift-Guarded (read res))

  -- Given that a new invocation carries the target it is made for, each blobstore operation, on a
  -- container or on an object, does nothing to the outside unless the actor may call the entity
  -- that the target selected for the blobstore and the links of the blobstore package resolve to.
  pub blobstore-Guarded :
      (container name : String) (names : List String) (start end : ℕ) (value : Result Error Bytes)
      → Guarded
          (MayStore "wasmcloud:blobstore/Blobstore.GetObject")
          (get_data L B h shared container name start end)
        × Guarded
            (MayStore "wasmcloud:blobstore/Blobstore.ObjectExists")
            (has_object L B h shared container name)
        × Guarded
            (MayStore "wasmcloud:blobstore/Blobstore.PutObject")
            (write_data L B h shared container name value)
        × Guarded
            (MayStore "wasmcloud:blobstore/Blobstore.RemoveObjects")
            (delete_objects L B h shared container names)
        × Guarded
            (MayStore "wasmcloud:blobstore/Blobstore.GetObjectInfo")
            (object_info L B h shared container name)
        × Guarded
            (MayStore "wasmcloud:blobstore/Blobstore.CreateContainer")
            (create_container L B h shared container)
        × Guarded
            (MayStore "wasmcloud:blobstore/Blobstore.ContainerExists")
            (container_exists L B h shared container)
        × Guarded
            (MayStore "wasmcloud:blobstore/Blobstore.DeleteContainer")
            (delete_container L B h shared container)
        × Guarded
            (MayStore "wasmcloud:blobstore/Blobstore.GetContainerInfo")
            (container_info L B h shared container)
        × Guarded
            (MayStore "wasmcloud:blobstore/Blobstore.ListObjects")
            (list_objects L B h shared container)
  unfolding get_data has_object write_data delete_objects object_info create_container
      container_exists delete_container container_info list_objects
  blobstore-Guarded container name names start end value = (
    ask_store-Guarded _ _ _,
    ask_store-Guarded _ _ _,
    bind-Guarded (lift (context "failed to read bytes" value)) _ (lift-Guarded _)
        (λ bytes. ask_store-Guarded _ _ _),
    ask_store-Guarded _ _ _,
    ask_store-Guarded _ _ _,
    ask_store-Guarded _ _ _,
    ask_store-Guarded _ _ _,
    ask_store-Guarded _ _ _,
    ask_store-Guarded _ _ _,
    ask_store-Guarded _ _ _,
  )
