-- ===== src/External/Blobs.antt =====
-- wasmcloud_compat::blobstore: the messages of a blobstore provider, by the fields that the handler
-- sets or reads, and their encoding. A timestamp is its seconds.
use kasmcloud.Prelude.{ℕ, ℤ, String, Bool, Option, List, Result, Error}
use kasmcloud.External.{Bytes}

pub record ContainerMetadata : Type 0 where
  pub container_id : String
  pub created_at : Option ℤ

pub record GetObjectRequest : Type 0 where
  pub object_id : String
  pub container_id : String
  pub range_start : Option ℕ
  pub range_end : Option ℕ

pub record Chunk : Type 0 where
  pub object_id : String
  pub container_id : String
  pub bytes : Bytes
  pub offset : ℕ
  pub is_last : Bool

pub record GetObjectResponse : Type 0 where
  pub success : Bool
  pub error : Option String
  pub initial_chunk : Option Chunk

pub record ContainerObject : Type 0 where
  pub container_id : String
  pub object_id : String

pub record RemoveObjectsRequest : Type 0 where
  pub container_id : String
  pub objects : List String

pub record ItemResult : Type 0 where
  pub key : String
  pub success : Bool
  pub error : Option String

pub record ListObjectsRequest : Type 0 where
  pub container_id : String
  pub max_items : Option ℕ

pub record ObjectMetadata : Type 0 where
  pub object_id : String
  pub container_id : String
  pub content_length : ℕ

pub record ListObjectsResponse : Type 0 where
  pub objects : List ObjectMetadata
  pub is_last : Bool
  pub continuation : Option String

pub record Blobs : Type 0 where
  pub encode_name : String → Result Error Bytes
  pub encode_get : GetObjectRequest → Result Error Bytes
  pub encode_object : ContainerObject → Result Error Bytes
  -- PutObjectRequest, by its chunk
  pub encode_put : Chunk → Result Error Bytes
  pub encode_remove : RemoveObjectsRequest → Result Error Bytes
  pub encode_list : ListObjectsRequest → Result Error Bytes
  pub decode_unit : Bytes → Result Error (Unit {0})
  pub decode_bool : Bytes → Result Error Bool
  pub decode_container : Bytes → Result Error ContainerMetadata
  pub decode_get : Bytes → Result Error GetObjectResponse
  -- PutObjectResponse, by its stream id
  pub decode_put : Bytes → Result Error (Option String)
  pub decode_items : Bytes → Result Error (List ItemResult)
  pub decode_list : Bytes → Result Error ListObjectsResponse
  pub decode_object : Bytes → Result Error ObjectMetadata
