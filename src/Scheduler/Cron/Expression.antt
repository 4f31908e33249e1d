-- ===== src/Scheduler/Cron/Expression.antt =====
-- `CronExpression::parse` and `parse_named` of crates/lucy-scheduler/src/cron.rs, and `matches` on the
-- fields of a date.
pub mod Valid
use lucy.Prelude.{
  ℕ, Bool, true, false, ◌&&◌, ◌||◌, Option, none, some, List, [], ◌∷◌, if◌then◌else◌, Result, ok,
  err, ◌>>=◌, length,
}
use lucy.Text.{Text, codes, text_eq, trim, strip_prefix, to_lowercase, split_whitespace}
use lucy.Scheduler.Cron.{
  CronField, any_value, specific, matches, CronError, wrong_field_count, invalid_named,
  CronExpression,
}
use lucy.Scheduler.Cron.Parse.{parse_field}
use lucy.Scheduler.Cron.Every.{ExpressionResult, parse_every}

abbrev pub yearly : CronExpression
yearly = record {
  minute = specific 0;
  hour = specific 0;
  day_of_month = specific 1;
  month = specific 1;
  day_of_week = any_value;
}

abbrev pub monthly : CronExpression
monthly = record yearly { month = any_value }

abbrev pub weekly : CronExpression
weekly = record monthly { day_of_month = any_value; day_of_week = specific 0 }

abbrev pub daily : CronExpression
daily = record monthly { day_of_month = any_value }

abbrev pub hourly : CronExpression
hourly = record daily { hour = any_value }

abbrev unknown_name : Text → Option Text → Option ExpressionResult
unknown_name expr (some rest) = some (err (invalid_named expr))
unknown_name expr none = none

-- `@every …`, another `@…`, or no name
abbrev after_every : Text → Text → Option Text → Option ExpressionResult
after_every expr lower (some rest) = some (parse_every rest)
after_every expr lower none = unknown_name expr (strip_prefix (codes "@") lower)

-- `none` where the text is no named schedule
unfoldable pub parse_named : Text → Option ExpressionResult
parse_named expr =
    let lower = to_lowercase expr in
    if text_eq lower (codes "@yearly") || text_eq lower (codes "@annually")
    then some (ok yearly)
    else if text_eq lower (codes "@monthly")
    then some (ok monthly)
    else if text_eq lower (codes "@weekly")
    then some (ok weekly)
    else if text_eq lower (codes "@daily") || text_eq lower (codes "@midnight")
    then some (ok daily)
    else if text_eq lower (codes "@hourly")
    then some (ok hourly)
    else after_every expr lower (strip_prefix (codes "@every ") lower)

unfoldable pub parse_fields : List Text → ExpressionResult
parse_fields (m ∷ h ∷ dom ∷ mon ∷ dow ∷ []) = do
  minute ← parse_field m 0 59
  hour ← parse_field h 0 23
  day_of_month ← parse_field dom 1 31
  month ← parse_field mon 1 12
  day_of_week ← parse_field dow 0 7
  ok (record {
    minute = minute;
    hour = hour;
    day_of_month = day_of_month;
    month = month;
    day_of_week = day_of_week;
  })
parse_fields parts = err (wrong_field_count (length parts))

abbrev named_or : Option ExpressionResult → ExpressionResult → ExpressionResult
named_or (some r) fields = r
named_or none fields = fields

-- `CronExpression::parse`
unfoldable pub parse : Text → ExpressionResult
unfolding parse_named parse_fields
parse expr = named_or (parse_named (trim expr)) (parse_fields (split_whitespace (trim expr)))
