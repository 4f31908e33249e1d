-- ===== src/Scheduler/Cron/Every/Period.antt =====
-- What an accepted `@every` schedule is.
use lucy.Prelude.{
  ℕ, ◌≤◌, ◌<◌, ◌/◌, ◌*◌, ◌≡◌, false, [], ◌∷◌, ◌++◌, arith, ok, err, ok_or, Bool-cases, inl, inr,
  if◌then◌else◌, ◌==◌, Ensures, Ensures-bind, sym, ◌∙◌, refl, ap,
}
use lucy.Text.{Text, codes, trim, span_digits, is_digit, is_whitespace}
use lucy.Text.Digits.{show-NoSpace}
use lucy.Text.Laws.{NoSpace, All-append, trim-NoSpace}
use lucy.Text.Decimal.{
  parse_u32, show_u32, u32_max, IsDigits, show_u32-IsDigits, parse_u32-show_u32,
}
use lucy.Scheduler.Cron.{IsValid, invalid_every}
use lucy.Scheduler.Cron.Every.{
  ExpressionResult, parse_every, every_trimmed, every_units, EveryUnit, minutes, hours, days,
  unknown, unit_of, every_n_hours,
}

every_units-IsValid :
    (s : Text) (n : ℕ) (u : EveryUnit) → 0 < n → Ensures IsValid (every_units s n u)
unfolding every_units
every_units-IsValid s n minutes p = ground arith
every_units-IsValid s n hours p = ground arith
every_units-IsValid s n days p = ground arith
every_units-IsValid s n unknown p = tt

counted-IsValid :
    (s : Text) (n : ℕ) (u : EveryUnit)
    → Ensures IsValid (if n == 0 then err (invalid_every s) else every_units s n u)
counted-IsValid s n u = elim (Bool-cases (n == 0)) [
  | inl e ↦ rw e tt
  | inr e ↦ rw e (every_units-IsValid s n u (ground arith))
]

every_trimmed-IsValid : (s : Text) (p : Text × Text) → Ensures IsValid (every_trimmed s p)
unfolding every_trimmed
every_trimmed-IsValid s (a, b) =
    Ensures-bind IsValid (ok_or (parse_u32 (trim a)) (invalid_every s)) _
      λ n h. counted-IsValid s n (unit_of (trim b))

pub parse_every-IsValid : (s : Text) → Ensures IsValid (parse_every s)
unfolding parse_every
parse_every-IsValid s = every_trimmed-IsValid (trim s) (span_digits (trim s))

span_digits-append :
    (a : Text) (d : ℕ) (b : Text)
    → IsDigits a
    → is_digit d ≡ false
    → span_digits (a ++ d ∷ b) ≡ (a, d ∷ b)
unfolding span_digits
span_digits-append [] d b h k = rw k
span_digits-append (c ∷ a) d b h k = rw (span_digits-append a d b h.1 k) (rw h.0)

-- a count and its unit are taken apart
parse_every-count :
    (n d : ℕ) (unit : Text)
    → 0 < n
    → n ≤ u32_max
    → is_digit d ≡ false
    → NoSpace (d ∷ unit)
    → parse_every (show_u32 n ++ d ∷ unit)
      ≡ every_units (show_u32 n ++ d ∷ unit) n (unit_of (d ∷ unit))
unfolding parse_every
parse_every-count n d unit pos fits k h =
    rw
      (trim-NoSpace (show_u32 n ++ d ∷ unit)
        (All-append (λ c. is_whitespace c ≡ false) (show_u32 n) (d ∷ unit) (show-NoSpace n) h))
      (rw (span_digits-append (show_u32 n) d unit (show_u32-IsDigits n) k) (
        rw (trim-NoSpace (show_u32 n) (show-NoSpace n))
          (rw (parse_u32-show_u32 n fits) (rw (trim-NoSpace (d ∷ unit) h) (not_zero n _ _ pos)))))
  where
    not_zero : (n : ℕ) (x y : ExpressionResult) → 0 < n → (if n == 0 then x else y) ≡ y
    not_zero n x y h = ground arith

minute_unit :
    (is_digit b'm' ≡ false) × (is_whitespace b'm' ≡ false) × (unit_of (b'm' ∷ []) ≡ minutes)
unfolding is_digit is_whitespace unit_of
minute_unit = (refl, refl, refl)

-- From an hour to less than a day, `@every` in minutes is `@every` in whole hours: a schedule of n
-- minutes is that of 60 * (n / 60) minutes, and the minutes past the last whole hour are dropped.
pub parse_every_minutes_floor :
    (n : ℕ)
    → 60 ≤ n
    → n < 1440
    → parse_every (show_u32 n ++ codes "m") ≡ parse_every (show_u32 (60 * (n / 60)) ++ codes "m")
parse_every_minutes_floor n h k =
    in_minutes n (omega arith) k
    ∙ ap (λ k. ok (every_n_hours k)) (same_hours n)
    ∙ sym (in_minutes (60 * (n / 60)) (omega arith) (omega arith))
  where
    in_minutes :
        (n : ℕ)
        → 60 ≤ n
        → n < 1440
        → parse_every (show_u32 n ++ codes "m") ≡ ok (every_n_hours (n / 60))
    in_minutes n h k =
        parse_every-count n b'm' [] (omega arith) (omega arith) minute_unit.0 (minute_unit.1, tt)
        ∙ rw minute_unit.2 (unfold every_units in ground arith)

    same_hours : (n : ℕ) → n / 60 ≡ 60 * (n / 60) / 60
    same_hours n = omega arith
