-- ===== src/Scheduler/Cron/Display.antt =====
-- `fmt::Display` of `CronField` and `CronExpression`, crates/lucy-scheduler/src/cron.rs.
pub mod RoundTrip
use lucy.Prelude.{ℕ, List, [], ◌∷◌, ◌++◌, map}
use lucy.Text.{Text, codes, join}
use lucy.Text.Decimal.{show_u32}
use lucy.Scheduler.Cron.{CronField, any_value, specific, range, values, step, CronExpression}

unfoldable pub show_field : CronField → Text
show_field any_value = codes "*"
show_field (specific v) = show_u32 v
show_field (range lo hi) = show_u32 lo ++ b'-' ∷ show_u32 hi
show_field (values vs) = join (codes ",") (map show_u32 vs)
show_field (step n hi) = b'*' ∷ b'/' ∷ show_u32 n

unfoldable pub show_expression : CronExpression → Text
show_expression e = join (codes " ") (
    show_field e.minute
    ∷ show_field e.hour
    ∷ show_field e.day_of_month
    ∷ show_field e.month
    ∷ show_field e.day_of_week
    ∷ [])
