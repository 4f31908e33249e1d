-- ===== src/Scheduler/Cron/Next/Sunday.antt =====
-- The day of week 7 is accepted by the parser, and no date has it.
use lucy.Prelude.{
  ℕ, zero, suc, ◌<◌, ◌≡◌, refl, false, none, some, Option, arith, leb, Bool-cases, Option-cases,
  inl, inr, ◌&&◌, Bool, ok,
}
use lucy.Text.{codes, trim, strip_prefix, split_once, contains_char}
use lucy.Text.Decimal.{parse_u32}
use lucy.Scheduler.Cron.{CronExpression, specific, matches}
use lucy.Scheduler.Cron.Parse.{parse_field}
use lucy.Scheduler.Cron.Next.{
  Chrono, search_from, search_between, matches_time, next_after, answer, first_candidate,
  limit_minutes,
}

false_last : (a b c d e : Bool) → e ≡ false → (a && b && c && d && e) ≡ false
false_last a b c d e h = ground arith

module _ (c : Chrono) (e : CronExpression) where
  open c use {Time, add_minutes, weekday_from_sunday, weekday-lt}

  sunday_seven-unmatched : e.day_of_week ≡ specific 7 → (t : Time) → matches_time c e t ≡ false
  unfolding matches_time
  sunday_seven-unmatched h t =
      false_last (matches e.minute (c.minute t)) (matches e.hour (c.hour t))
        (matches e.day_of_month (c.day t)) (matches e.month (c.month t))
        (matches e.day_of_week (weekday_from_sunday t))
        (rw h (never (weekday_from_sunday t) (weekday-lt t)))
    where
      never : (n : ℕ) → n < 7 → matches (specific 7) n ≡ false
      never n k = unfold matches in ground arith

  module _ (unmatched : (t : Time) → matches_time c e t ≡ false) where
    answer-search_from :
        (fuel limit : ℕ) (t : Time) → answer c (search_from c fuel e limit t) ≡ none
    unfolding search_from
    answer-search_from zero limit t = refl
    answer-search_from (suc fuel) limit t = elim (Bool-cases (leb (c.instant t) limit)) [
      | inl a ↦
          rw (a, unmatched t)
            (elim (Option-cases (add_minutes t 1)) [
              | inl p ↦ rw p refl
              | inr (u, p) ↦ rw p (answer-search_from fuel limit u)
            ])
      | inr a ↦ rw a refl
    ]

    answer-search_between : (a b : Option Time) → answer c (search_between c e a b) ≡ none
    answer-search_between none b = refl
    answer-search_between (some t) none = refl
    answer-search_between (some t) (some l) = answer-search_from (suc limit_minutes) (c.instant l) t

parse_seven : parse_field (codes "7") 0 7 ≡ ok (specific 7)
unfolding parse_field trim strip_prefix split_once contains_char parse_u32
parse_seven = refl

-- An expression whose day of week is the number 7, which the parser accepts, never fires: whatever its
-- other fields and the date, there is no next date.
pub next_after_sunday_seven :
    (c : Chrono) (e : CronExpression) (from : c.Time)
    → parse_field (codes "7") 0 7 ≡ ok e.day_of_week
    → next_after c e from ≡ none
unfolding next_after
next_after_sunday_seven c e from h =
    answer-search_between c e (sunday_seven-unmatched c e seven) (first_candidate c from)
      (c.add_minutes from limit_minutes)
  where
    seven : e.day_of_week ≡ specific 7
    seven = cc parse_seven
