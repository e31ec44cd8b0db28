-- ===== src/External/Clock.antt =====
-- chrono, as the reconcilers call it.
use kasmcloud.Prelude.{ℤ, String, Option}

pub record Clock : Type 0 where
  -- `Utc.timestamp_opt(t, 0)`, if it is a single time
  pub timestamp_opt : ℤ → Option String
  -- `DateTime::<Utc>::MIN_UTC`
  pub min_utc : String
