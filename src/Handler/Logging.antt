-- ===== src/Handler/Logging.antt =====
-- `Logging` of handler.rs.
use kasmcloud.Prelude.{String, Error, Action, lift, ok, ◌>>◌}
use kasmcloud.External.Effects.{Trace, Effect, perform, LogLevel, Severity}
use kasmcloud.Handler.{Handler}
use kasmcloud.Handler.Capability.{ensure_actor_capability}

-- What is critical is an error to `tracing`.
abbrev pub severity_of : LogLevel → Severity
severity_of LogLevel.trace = Severity.trace_event
severity_of LogLevel.debug = Severity.debug_event
severity_of LogLevel.info = Severity.info_event
severity_of LogLevel.warn = Severity.warn_event
severity_of LogLevel.error = Severity.error_event
severity_of LogLevel.critical = Severity.error_event

-- `logging` is wascap::caps::LOGGING.
unfoldable pub log : String → Handler → LogLevel → String → String → Action Trace Error (Unit {0})
log logging h level context message = do
  lift (ensure_actor_capability h.claims.metadata logging)
  perform
      (Effect.logged (record {
        severity = severity_of level;
        actor_id = h.claims.subject;
        level = level;
        context = context;
        message = message;
      }))
      λ t. ok tt
