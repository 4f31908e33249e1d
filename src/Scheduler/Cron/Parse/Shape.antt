-- ===== src/Scheduler/Cron/Parse/Shape.antt =====
-- What more a field that parses is known to be: the lengths of its lists, and the periods of its steps.
use lucy.Prelude.{
  refl, true, length, ◌>>=◌, Ensures-bind, ℕ, ◌≤◌, ◌≡◌, Option, none, some, List, [], ◌∷◌, arith,
  ok, err, Ensures, Bool-cases, Option-cases, inl, inr, if◌then◌else◌, ◌==◌,
}
use lucy.Text.{
  Text, codes, text_eq, trim, strip_prefix, split_once, split, starts_with, contains_char,
}
use lucy.Text.Decimal.{u32_max, parse_u32, parse_u32-le}
use lucy.Text.Laws.{split-two}
use lucy.Scheduler.Cron.{CronField, values, step, invalid_step}
use lucy.Scheduler.Cron.Parse.{
  range_bounds, stepped_part, stepped, list_values, list_or_single, unstepped, unstarred, with_star,
  parse_trimmed, parse_field,
}

-- What more is known of a field that was parsed: a list has at least two values, and every number is a u32.
abbrev pub IsParsed : CronField → Type 0
IsParsed (values []) = ⊥
IsParsed (values (v ∷ [])) = ⊥
IsParsed (step n m) = n ≤ u32_max
IsParsed f = Unit {0}

module _ (min max : ℕ) where
  stepped_part-IsParsed :
      (n : ℕ) (p : Text) (o : Option (Text × Text))
      → n ≤ u32_max
      → Ensures IsParsed (stepped_part min max n p o)
  unfolding stepped_part range_bounds
  stepped_part-IsParsed n p none h = ground arith
  stepped_part-IsParsed n p (some (a, b)) h = ground arith

  nonzero-IsParsed :
      (n : ℕ) (p s : Text) (o : Option (Text × Text))
      → n ≤ u32_max
      → Ensures IsParsed (if n == 0 then err (invalid_step s) else stepped_part min max n p o)
  nonzero-IsParsed n p s o h = elim (Bool-cases (n == 0)) [
    | inl e ↦ rw e tt
    | inr e ↦ rw e (stepped_part-IsParsed n p o h)
  ]

  stepped-IsParsed : (p s : Text) → Ensures IsParsed (stepped min max p s)
  unfolding stepped
  stepped-IsParsed p s = elim (Option-cases (parse_u32 s)) [
    | inl e ↦ rw e tt
    | inr (n, e) ↦ rw e (nonzero-IsParsed n p s (split_once b'-' p) (parse_u32-le s n e))
  ]

  -- as many values as there are parts
  list_values-length :
      (ps : List Text) → Ensures (λ vs. length vs ≡ length ps) (list_values min max ps)
  unfolding list_values
  list_values-length [] = refl
  list_values-length (p ∷ ps) = ground (arith, list_values-length ps)

  two-IsParsed : (vs : List ℕ) → 2 ≤ length vs → IsParsed (values vs)
  two-IsParsed [] h = absurd (omega arith)
  two-IsParsed (v ∷ []) h = absurd (omega arith)
  two-IsParsed (v ∷ w ∷ vs) h = tt

  listed-IsParsed :
      (ps : List Text)
      → 2 ≤ length ps
      → Ensures IsParsed (list_values min max ps >>= (λ vs. ok (values vs)))
  listed-IsParsed ps h =
      Ensures-bind IsParsed (list_values min max ps) (λ vs. ok (values vs))
        (λ vs e. two-IsParsed vs (omega (arith, h, rw e at (list_values-length ps))))

  list_or_single-IsParsed : (s : Text) → Ensures IsParsed (list_or_single min max s)
  unfolding list_or_single
  list_or_single-IsParsed s = elim (Bool-cases (contains_char b',' s)) [
    | inl e ↦ rw e (listed-IsParsed (split b',' s) (split-two b',' s e))
    | inr e ↦ rw e (ground arith)
  ]

  unstepped-IsParsed :
      (s : Text) (o : Option (Text × Text)) → Ensures IsParsed (unstepped min max s o)
  unfolding unstepped range_bounds
  unstepped-IsParsed s none = list_or_single-IsParsed s
  unstepped-IsParsed s (some (a, b)) = ground arith

  unstarred-IsParsed :
      (s : Text) (o : Option (Text × Text)) → Ensures IsParsed (unstarred min max s o)
  unfolding unstarred
  unstarred-IsParsed s none = unstepped-IsParsed s (split_once b'-' s)
  unstarred-IsParsed s (some (a, b)) = stepped-IsParsed a b

  with_star-IsParsed : (s : Text) (o : Option Text) → Ensures IsParsed (with_star min max s o)
  unfolding with_star
  with_star-IsParsed s none = unstarred-IsParsed s (split_once b'/' s)
  with_star-IsParsed s (some n) = elim (Option-cases (parse_u32 n)) [
    | inl e ↦ rw e tt
    | inr (k, e) ↦ rw e (ground (arith, parse_u32-le n k e))
  ]

  parse_trimmed-IsParsed : (s : Text) → Ensures IsParsed (parse_trimmed min max s)
  unfolding parse_trimmed
  parse_trimmed-IsParsed s = elim (Bool-cases (text_eq s (codes "*"))) [
    | inl e ↦ rw e tt
    | inr e ↦ rw e (with_star-IsParsed s (strip_prefix (codes "*/") s))
  ]

pub parse_field-IsParsed :
    (s : Text) (min max : ℕ) (f : CronField) → parse_field s min max ≡ ok f → IsParsed f
unfolding parse_field
parse_field-IsParsed s min max f h = rw h at (parse_trimmed-IsParsed min max (trim s))

-- the period of a step is at most the upper bound
abbrev pub PeriodWithin : ℕ → CronField → Type 0
PeriodWithin max (step n m) = n ≤ max
PeriodWithin max f = Unit {0}

-- The period of a step that is written with a star is at most the upper bound.
abbrev pub StarBound : Text → ℕ → CronField → Type 0
StarBound s max f = starts_with (codes "*/") (trim s) ≡ true → PeriodWithin max f

module _ (min max : ℕ) where
  with_star-Within :
      (s t : Text) (o : Option Text)
      → strip_prefix (codes "*/") s ≡ o
      → starts_with (codes "*/") s ≡ true
      → Ensures (PeriodWithin max) (with_star min max t o)
  unfolding with_star starts_with
  with_star-Within s t none e h = absurd (ground (arith, rw e at h))
  with_star-Within s t (some n) e h = ground arith

  parse_trimmed-StarBound :
      (s : Text)
      → starts_with (codes "*/") s ≡ true
      → Ensures (PeriodWithin max) (parse_trimmed min max s)
  unfolding parse_trimmed
  parse_trimmed-StarBound s h = elim (Bool-cases (text_eq s (codes "*"))) [
    | inl e ↦ rw e tt
    | inr e ↦ rw e (with_star-Within s s (strip_prefix (codes "*/") s) refl h)
  ]

pub parse_field-StarBound :
    (s : Text) (min max : ℕ) (f : CronField) → parse_field s min max ≡ ok f → StarBound s max f
unfolding parse_field
parse_field-StarBound s min max f h b = rw h at (parse_trimmed-StarBound min max (trim s) b)
