-- ===== src/Scheduler/Cron/Tests.antt =====
-- The schedules at concrete inputs.
use lucy.Prelude.{◌*◌, ◌≡◌, refl, ok, some, none, [], ◌∷◌, ◌++◌, arith}
use lucy.Text.{
  split, codes, trim, strip_prefix, split_once, split_whitespace, contains_char, to_lowercase,
}
use lucy.Text.Decimal.{parse_u32, show_u32}
use lucy.Scheduler.Cron.{CronExpression, any_value, specific, range, values, step, matches, IsValid}
use lucy.Scheduler.Cron.Parse.{parse_field, list_values}
use lucy.Scheduler.Cron.Display.{show_field}
use lucy.Scheduler.Cron.Display.RoundTrip.{parse_field-show_field}
use lucy.Scheduler.Cron.Every.{parse_every}
use lucy.Scheduler.Cron.Every.Period.{parse_every_minutes_floor}
use lucy.Scheduler.Cron.Expression.{parse, parse_named, parse_fields}
use lucy.Scheduler.Cron.Expression.Valid.{StarsBound, parse-IsValid}
use lucy.Scheduler.Cron.Next.{
  minute_ns, limit_minutes, first_candidate, matches_time, next_after, search_from,
}
use lucy.Scheduler.Cron.Minutes.{toy}
use lucy.Scheduler.Cron.Next.First.{IsNext, next_after-IsNext}
use lucy.Scheduler.Cron.Next.Sunday.{next_after_sunday_seven}

abbrev half_past : CronExpression
half_past = record {
  minute = specific 30;
  hour = any_value;
  day_of_month = any_value;
  month = any_value;
  day_of_week = any_value;
}

abbrev on_seven : CronExpression
on_seven = record half_past { day_of_week = specific 7 }

half_past_test : next_after toy half_past 0 ≡ some 30
unfolding next_after first_candidate matches_time matches search_from
half_past_test = refl

next_after-IsNext_example :
    IsNext toy half_past (limit_minutes * minute_ns) 1 (next_after toy half_past 0)
unfolding first_candidate
next_after-IsNext_example = next_after-IsNext toy half_past 0 1 limit_minutes refl refl

listed : parse_field (codes " 5, 10") 0 59 ≡ ok (values (5 ∷ 10 ∷ []))
unfolding parse_field trim strip_prefix split_once contains_char parse_u32 list_values split
listed = refl

parse_field-show_field_example :
    parse_field (show_field (values (5 ∷ 10 ∷ []))) 0 59 ≡ ok (values (5 ∷ 10 ∷ []))
parse_field-show_field_example =
    parse_field-show_field (codes " 5, 10") (values (5 ∷ 10 ∷ [])) 0 59 (omega arith) listed

-- A period above the bound is accepted after a value, and refused as it is printed.
wide_period : parse_field (codes "5/100") 0 59 ≡ ok (step 100 59)
unfolding parse_field trim strip_prefix split_once contains_char parse_u32
wide_period = refl

abbrev weekdays : CronExpression
weekdays = record {
  minute = step 5 59;
  hour = range 9 17;
  day_of_month = any_value;
  month = any_value;
  day_of_week = range 1 5;
}

weekdays_parsed : parse (codes "*/5 9-17 * * 1-5") ≡ ok weekdays
unfolding parse parse_named parse_fields parse_field trim strip_prefix split_once contains_char
    parse_u32 split_whitespace to_lowercase
weekdays_parsed = refl

parse-IsValid_example :
    IsValid weekdays
    × (parse_named (trim (codes "*/5 9-17 * * 1-5")) ≡ none
        → StarsBound (split_whitespace (trim (codes "*/5 9-17 * * 1-5"))) weekdays)
parse-IsValid_example = parse-IsValid (codes "*/5 9-17 * * 1-5") weekdays weekdays_parsed

parse_every_minutes_floor_example :
    parse_every (show_u32 90 ++ codes "m") ≡ parse_every (show_u32 60 ++ codes "m")
parse_every_minutes_floor_example = parse_every_minutes_floor 90 (omega arith) (omega arith)

next_after_sunday_seven_example : next_after toy on_seven 0 ≡ none
unfolding parse_field trim strip_prefix split_once contains_char parse_u32
next_after_sunday_seven_example = next_after_sunday_seven toy on_seven 0 refl
