-- ===== src/Scheduler/Cron/Parse/Bounds.antt =====
-- A field that parses is within the bounds it was parsed against.
use lucy.Prelude.{
  ℕ, ◌≤◌, ◌<◌, ◌≡◌, Option, none, some, List, [], ◌∷◌, arith, All, ok, err, Ensures, Bool-cases,
  Option-cases, inl, inr, if◌then◌else◌, ◌==◌,
}
use lucy.Text.{Text, codes, text_eq, trim, strip_prefix, split_once, split}
use lucy.Text.Decimal.{parse_u32}
use lucy.Scheduler.Cron.{CronField, InBounds, invalid_step}
use lucy.Scheduler.Cron.Parse.{
  range_bounds, stepped_part, stepped, list_values, list_or_single, unstepped, unstarred, with_star,
  parse_trimmed, parse_field,
}

module _ (min max : ℕ) where
  range_bounds_lem :
      (w a b : Text)
      → Ensures
          (λ (p : ℕ × ℕ). (min ≤ p.0) × (p.0 ≤ p.1) × (p.1 ≤ max))
          (range_bounds min max w a b)
  unfolding range_bounds
  range_bounds_lem w a b = ground arith

  stepped_part-InBounds :
      (n : ℕ) (p : Text) (o : Option (Text × Text))
      → 0 < n
      → Ensures (InBounds min max) (stepped_part min max n p o)
  unfolding stepped_part
  stepped_part-InBounds n p none h = ground arith
  stepped_part-InBounds n p (some (a, b)) h = ground arith

  step_zero :
      (n : ℕ) (p s : Text) (o : Option (Text × Text))
      → Ensures
          (InBounds min max)
          (if n == 0 then err (invalid_step s) else stepped_part min max n p o)
  step_zero n p s o = elim (Bool-cases (n == 0)) [
    | inl e ↦ rw e tt
    | inr e ↦ rw e (stepped_part-InBounds n p o (ground arith))
  ]

  stepped-InBounds : (p s : Text) → Ensures (InBounds min max) (stepped min max p s)
  unfolding stepped
  stepped-InBounds p s = elim (Option-cases (parse_u32 s)) [
    | inl e ↦ rw e tt
    | inr (n, e) ↦ rw e (step_zero n p s (split_once b'-' p))
  ]

  list_values-InBounds :
      (ps : List Text)
      → Ensures (λ vs. All (λ v. (min ≤ v) × (v ≤ max)) vs) (list_values min max ps)
  unfolding list_values
  list_values-InBounds [] = tt
  list_values-InBounds (p ∷ ps) = ground (arith, list_values-InBounds ps)

  list_or_single-InBounds : (s : Text) → Ensures (InBounds min max) (list_or_single min max s)
  unfolding list_or_single
  list_or_single-InBounds s = ground (arith, list_values-InBounds (split b',' s))

  unstepped-InBounds :
      (s : Text) (o : Option (Text × Text)) → Ensures (InBounds min max) (unstepped min max s o)
  unfolding unstepped
  unstepped-InBounds s none = list_or_single-InBounds s
  unstepped-InBounds s (some (a, b)) = ground (arith, range_bounds_lem s a b)

  unstarred-InBounds :
      (s : Text) (o : Option (Text × Text)) → Ensures (InBounds min max) (unstarred min max s o)
  unfolding unstarred
  unstarred-InBounds s none = unstepped-InBounds s (split_once b'-' s)
  unstarred-InBounds s (some (a, b)) = stepped-InBounds a b

  with_star-InBounds :
      (s : Text) (o : Option Text) → Ensures (InBounds min max) (with_star min max s o)
  unfolding with_star
  with_star-InBounds s none = unstarred-InBounds s (split_once b'/' s)
  with_star-InBounds s (some n) = ground arith

  parse_trimmed-InBounds : (s : Text) → Ensures (InBounds min max) (parse_trimmed min max s)
  unfolding parse_trimmed
  parse_trimmed-InBounds s = elim (Bool-cases (text_eq s (codes "*"))) [
    | inl e ↦ rw e tt
    | inr e ↦ rw e (with_star-InBounds s (strip_prefix (codes "*/") s))
  ]

-- Whatever the text, a field that `parse` accepts against `min` and `max` is within them: its value,
-- both ends of its range in order, or every value of its list; the period of a step is not zero and
-- its end is at most `max`.
pub parse_field-InBounds :
    (s : Text) (min max : ℕ) (f : CronField) → parse_field s min max ≡ ok f → InBounds min max f
unfolding parse_field
parse_field-InBounds s min max f h = rw h at (parse_trimmed-InBounds min max (trim s))
