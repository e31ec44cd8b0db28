-- ===== src/External/Effects.antt =====
-- What the program does to the world outside, newest first. The world's answers are functions of
-- this history, so that the same request may be answered differently a second time.
use kasmcloud.Prelude.{String, List, ◌∷◌, Result, Action}
use kasmcloud.External.{Bytes, Request}

-- wasmcloud_runtime::capability::logging::logging::Level
pub data LogLevel : Type 0 where
  trace debug info warn error critical : LogLevel

-- tracing::Level
pub data Severity : Type 0 where
  trace_event debug_event info_event warn_event error_event : Severity

-- An event of `tracing`, with the fields that the program gives it.
pub record LogEvent : Type 0 where
  pub severity : Severity
  pub actor_id : String
  pub level : LogLevel
  pub context : String
  pub message : String

pub data Effect : Type 0 where
  chunked : String → Bytes → Effect
  chunked_response : String → Bytes → Effect
  -- a body asked of the chunk store
  fetched : String → Effect
  requested : Request → Effect
  published : String → Bytes → Effect
  replied : Bytes → Effect
  invoked : String → Bytes → Effect
  subscribed : String → Effect
  serving : String → Effect
  aborted : String → Effect
  spawned : String → String → Effect
  wrote : Bytes → Effect
  killed : String → Effect
  logged : LogEvent → Effect

abbrev pub Trace : Type 0
Trace = List Effect

-- A call of the outside: its answer, and the call on record.
abbrev pub perform : {E A : Type 0} → Effect → (Trace → Result E A) → Action Trace E A
perform e answer t = (answer t, e ∷ t)
