-- ===== src/External/Compat.antt =====
-- The messages of wasmcloud_compat under rmp_serde's encoding, as the handler sends and reads them.
use kasmcloud.Prelude.{ℕ, ℤ, String, Bool, Option, Result, Error}
use kasmcloud.External.{Bytes}

-- wasmcloud_compat::messaging::{RequestMessage, ReplyMessage, PubMessage}
pub record RequestMessage : Type 0 where
  pub subject : String
  pub body : Bytes
  pub timeout_ms : ℕ

pub record ReplyMessage : Type 0 where
  pub subject : String
  pub reply_to : Option String
  pub body : Bytes

pub record PubMessage : Type 0 where
  pub subject : String
  pub reply_to : Option String
  pub body : Bytes

-- wasmcloud_compat::keyvalue::{IncrementRequest, GetResponse, SetRequest}
pub record IncrementRequest : Type 0 where
  pub key : String
  pub value : ℕ

pub record GetResponse : Type 0 where
  pub value : Bytes
  pub exists : Bool

pub record SetRequest : Type 0 where
  pub key : String
  pub value : String
  pub expires : ℕ

pub record Compat : Type 0 where
  pub encode_key : String → Result Error Bytes
  pub encode_increment : IncrementRequest → Result Error Bytes
  pub encode_set : SetRequest → Result Error Bytes
  pub encode_request : RequestMessage → Result Error Bytes
  pub encode_publish : PubMessage → Result Error Bytes
  pub decode_unit : Bytes → Result Error (Unit {0})
  pub decode_bool : Bytes → Result Error Bool
  pub decode_i32 : Bytes → Result Error ℤ
  pub decode_get : Bytes → Result Error GetResponse
  pub decode_reply : Bytes → Result Error ReplyMessage
