-- ===== src/Scheduler/Cron/Next.antt =====
-- `CronExpression::matches` and `next_after` of crates/lucy-scheduler/src/cron.rs, over the dates of the
-- crate chrono, which are a parameter.
pub mod First
pub mod Sunday
use lucy.Prelude.{
  ℕ, zero, suc, ◌+◌, ◌*◌, ◌≤◌, ◌<◌, ◌≡◌, Bool, true, false, ◌&&◌, Option, none, some, leb,
  if◌then◌else◌,
}
use lucy.Scheduler.Cron.{CronExpression, matches}

abbrev pub minute_ns : ℕ
minute_ns = 60_000_000_000

-- What the code uses of `chrono::DateTime<Utc>`. `instant` is the nanosecond of a date, counted from the
-- earliest one; dates are ordered by it.
pub record Chrono : Type 1 where
  pub Time : Type 0
  pub instant : Time → ℕ
  -- `checked_add_signed(Duration::minutes(n))`, `none` past the latest date
  pub add_minutes : Time → ℕ → Option Time
  -- `with_second(0)?.with_nanosecond(0)`
  pub on_the_minute : Time → Option Time
  pub minute : Time → ℕ
  pub hour : Time → ℕ
  pub day : Time → ℕ
  pub month : Time → ℕ
  pub weekday_from_sunday : Time → ℕ
  pub add_minutes_lem :
      (t : Time) (n : ℕ) (u : Time)
      → add_minutes t n ≡ some u
      → instant u ≡ instant t + n * minute_ns
  pub on_the_minute-le :
      (t u : Time)
      → on_the_minute t ≡ some u
      → (instant u ≤ instant t) × (instant t < instant u + minute_ns)
  pub weekday-lt : (t : Time) → weekday_from_sunday t < 7

-- How the search of `next_after` ends: `?` on a date that cannot be represented is `overflow`.
pub data Search (T : Type 0) : Type 0 where
  found : T → Search T
  past_limit overflow out_of_fuel : Search T

-- `Duration::days(365 * 5)` in minutes
abbrev pub limit_minutes : ℕ
limit_minutes = 365 * 5 * (24 * 60)

module _ (c : Chrono) where
  open c use {
    Time, instant, add_minutes, on_the_minute, minute, hour, day, month, weekday_from_sunday,
  }

  unfoldable pub matches_time : CronExpression → Time → Bool
  matches_time e t =
      matches e.minute (minute t)
      && matches e.hour (hour t)
      && matches e.day_of_month (day t)
      && matches e.month (month t)
      && matches e.day_of_week (weekday_from_sunday t)

  abbrev go_on : (Time → Search Time) → Option Time → Search Time
  go_on k none = overflow
  go_on k (some t) = k t

  -- the `while candidate <= limit` loop
  unfoldable pub search_from : ℕ → CronExpression → ℕ → Time → Search Time
  search_from zero e limit t = out_of_fuel
  search_from (suc fuel) e limit t =
      let rest = go_on (search_from fuel e limit) (add_minutes t 1) in
      if leb (instant t) limit then (if matches_time e t then found t else rest) else past_limit

  abbrev start_of : Option Time → Option Time
  start_of none = none
  start_of (some t) = on_the_minute t

  -- the first minute after `from`
  unfoldable pub first_candidate : Time → Option Time
  first_candidate from = start_of (add_minutes from 1)

  abbrev search_between : CronExpression → Option Time → Option Time → Search Time
  search_between e none limit = overflow
  search_between e (some t) none = overflow
  search_between e (some t) (some l) = search_from (suc limit_minutes) e (instant l) t

  unfoldable pub next_after_search : CronExpression → Time → Search Time
  next_after_search e from =
      search_between e (first_candidate from) (add_minutes from limit_minutes)

  -- `next_after`: both ways to end with no date are `None`
  abbrev pub answer : Search Time → Option Time
  answer (found t) = some t
  answer _ = none

  unfoldable pub next_after : CronExpression → Time → Option Time
  unfolding next_after_search
  next_after e from = answer (next_after_search e from)

  -- The date `k` minutes after `t`, minute by minute.
  unfoldable pub nth_minute : Time → ℕ → Option Time
  nth_minute t zero = some t
  nth_minute t (suc k) = elim (add_minutes t 1) [ none ↦ none | some u ↦ nth_minute u k ]
