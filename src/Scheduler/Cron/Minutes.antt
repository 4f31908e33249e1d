-- ===== src/Scheduler/Cron/Minutes.antt =====
-- Dates for the tests, in place of those of chrono.
use lucy.Prelude.{ℕ, ◌+◌, ◌*◌, ◌%◌, ◌/◌, ◌≤◌, ◌<◌, ◌≡◌, some, arith}
use lucy.Scheduler.Cron.Next.{Chrono, minute_ns}

pub toy_minutes :
    (t n u : ℕ) → some (t + n) ≡ some u → u * minute_ns ≡ t * minute_ns + n * minute_ns
toy_minutes t n u h = ground arith

pub toy_minute :
    (t u : ℕ)
    → some t ≡ some u
    → (u * minute_ns ≤ t * minute_ns) × (t * minute_ns < u * minute_ns + minute_ns)
toy_minute t u h = ground arith

pub toy_weekday : (t : ℕ) → t / 1440 % 7 < 7
toy_weekday t = omega arith

-- Dates counted in whole minutes, in months of 31 days.
abbrev pub toy : Chrono
toy = record {
  Time = ℕ;
  instant = λ t. t * minute_ns;
  add_minutes = λ t n. some (t + n);
  on_the_minute = some;
  minute = λ t. t % 60;
  hour = λ t. t / 60 % 24;
  day = λ t. t / 1440 % 31 + 1;
  month = λ t. t / 44640 % 12 + 1;
  weekday_from_sunday = λ t. t / 1440 % 7;
  add_minutes_lem = toy_minutes;
  on_the_minute-le = toy_minute;
  weekday-lt = toy_weekday;
}
