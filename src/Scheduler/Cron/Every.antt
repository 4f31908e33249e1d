-- ===== src/Scheduler/Cron/Every.antt =====
-- `CronExpression::parse_every` of crates/lucy-scheduler/src/cron.rs: `@every 30m`, `2h`, `1d`.
pub mod Period
use lucy.Prelude.{
  ℕ, ◌/◌, ◌%◌, Bool, true, false, Option, none, some, List, [], ◌∷◌, leb, ltb, ◌==◌, if◌then◌else◌,
  Result, ok, err, ok_or, ◌>>=◌,
}
use lucy.Text.{Text, codes, text_eq, trim, span_digits}
use lucy.Text.Decimal.{parse_u32}
use lucy.Scheduler.Cron.{
  CronField, any_value, specific, step, CronError, invalid_every, CronExpression,
}

pub data EveryUnit : Type 0 where
  minutes hours days unknown : EveryUnit

abbrev one_of : Text → List Text → Bool
one_of u [] = false
one_of u (t ∷ ts) = if text_eq u t then true else one_of u ts

-- the patterns of `match unit`
unfoldable pub unit_of : Text → EveryUnit
unit_of u =
    if one_of u (codes "m" ∷ codes "min" ∷ codes "mins" ∷ codes "minute" ∷ codes "minutes" ∷ [])
    then minutes
    else if one_of u (codes "h" ∷ codes "hr" ∷ codes "hrs" ∷ codes "hour" ∷ codes "hours" ∷ [])
    then hours
    else if one_of u (codes "d" ∷ codes "day" ∷ codes "days" ∷ [])
    then days
    else unknown

abbrev pub every_n_minutes : ℕ → CronExpression
every_n_minutes n = record {
  minute = step n 59;
  hour = any_value;
  day_of_month = any_value;
  month = any_value;
  day_of_week = any_value;
}

abbrev pub every_n_hours : ℕ → CronExpression
every_n_hours n = record {
  minute = specific 0;
  hour = step n 23;
  day_of_month = any_value;
  month = any_value;
  day_of_week = any_value;
}

abbrev pub every_n_days : ℕ → CronExpression
every_n_days n = record {
  minute = specific 0;
  hour = specific 0;
  day_of_month = step n 31;
  month = any_value;
  day_of_week = any_value;
}

abbrev pub ExpressionResult : Type 0
ExpressionResult = Result CronError CronExpression

-- `match unit { … }` for the count `n`; the error carries the text `s`
unfoldable pub every_units : Text → ℕ → EveryUnit → ExpressionResult
every_units s n minutes =
    if leb 60 n
    then if leb 24 (n / 60)
      then if n / 60 % 24 == 0 then ok (every_n_days (n / 60 / 24)) else err (invalid_every s)
      else ok (every_n_hours (n / 60))
    else ok (every_n_minutes n)
every_units s n hours =
    if leb 24 n
    then if n % 24 == 0 then ok (every_n_days (n / 24)) else err (invalid_every s)
    else ok (every_n_hours n)
every_units s n days = if leb 31 n then err (invalid_every s) else ok (every_n_days n)
every_units s n unknown = err (invalid_every s)

every_trimmed : Text → Text × Text → ExpressionResult
unfolding every_units unit_of
every_trimmed s (num_str, unit) = do
  n ← ok_or (parse_u32 (trim num_str)) (invalid_every s)
  if n == 0 then err (invalid_every s) else every_units s n (unit_of (trim unit))

unfoldable pub parse_every : Text → ExpressionResult
unfolding every_trimmed
parse_every s = every_trimmed (trim s) (span_digits (trim s))
