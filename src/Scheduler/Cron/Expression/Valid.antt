-- ===== src/Scheduler/Cron/Expression/Valid.antt =====
-- A schedule that parses has every field within its bounds.
use lucy.Prelude.{
  ◌≡◌, Bool, true, false, Option, none, some, List, [], ◌∷◌, arith, ok, Ensures, Ensures-bind,
  if◌then◌else◌,
}
use lucy.Text.{Text, codes, trim, split_whitespace, strip_prefix}
use lucy.Scheduler.Cron.{CronExpression, IsValid}
use lucy.Scheduler.Cron.Parse.{parse_field}
use lucy.Scheduler.Cron.Parse.Shape.{StarBound, parse_field-StarBound}
use lucy.Scheduler.Cron.Parse.Bounds.{parse_field-InBounds}
use lucy.Scheduler.Cron.Every.{ExpressionResult}
use lucy.Scheduler.Cron.Every.Period.{parse_every-IsValid}
use lucy.Scheduler.Cron.Expression.{
  parse, parse_named, parse_fields, named_or, after_every, unknown_name, yearly, monthly, weekly,
  daily, hourly,
}

parse_fields-IsValid : (ps : List Text) → Ensures IsValid (parse_fields ps)
unfolding parse_fields
parse_fields-IsValid (m ∷ h ∷ dom ∷ mon ∷ dow ∷ []) =
    Ensures-bind IsValid (parse_field m 0 59) _ λ a pa.
      Ensures-bind IsValid (parse_field h 0 23) _ λ b pb.
        Ensures-bind IsValid (parse_field dom 1 31) _ λ c pc.
          Ensures-bind IsValid (parse_field mon 1 12) _ λ d pd.
            Ensures-bind IsValid (parse_field dow 0 7) _ λ e pe. record {
              minute = parse_field-InBounds m 0 59 a pa;
              hour = parse_field-InBounds h 0 23 b pb;
              day_of_month = parse_field-InBounds dom 1 31 c pc;
              month = parse_field-InBounds mon 1 12 d pd;
              day_of_week = parse_field-InBounds dow 0 7 e pe;
            }
parse_fields-IsValid _ = tt

-- where there is a result, it satisfies `IsValid`
abbrev Named : Option ExpressionResult → Type 0
Named none = Unit {0}
Named (some r) = Ensures IsValid r

Named-if :
    (b : Bool) (x y : Option ExpressionResult) → Named x → Named y → Named (if b then x else y)
Named-if true x y h k = h
Named-if false x y h k = k

unknown-Named : (s : Text) (o : Option Text) → Named (unknown_name s o)
unknown-Named s none = tt
unknown-Named s (some t) = tt

after_every-Named : (s t : Text) (o : Option Text) → Named (after_every s t o)
after_every-Named s t none = unknown-Named s (strip_prefix (codes "@") t)
after_every-Named s t (some rest) = parse_every-IsValid rest

yearly_valid : Named (some (ok yearly))
yearly_valid = omega arith

monthly_valid : Named (some (ok monthly))
monthly_valid = omega arith

weekly_valid : Named (some (ok weekly))
weekly_valid = omega arith

daily_valid : Named (some (ok daily))
daily_valid = omega arith

hourly_valid : Named (some (ok hourly))
hourly_valid = omega arith

ruleset named_valid = (yearly_valid, monthly_valid, weekly_valid, daily_valid, hourly_valid)

parse_named-Named : (s : Text) → Named (parse_named s)
unfolding parse_named
parse_named-Named s = search (Named-if, after_every-Named, named_valid) depth 7

named_or-IsValid :
    (o : Option ExpressionResult) (r : ExpressionResult)
    → Named o
    → Ensures IsValid r
    → Ensures IsValid (named_or o r)
named_or-IsValid none r h k = k
named_or-IsValid (some q) r h k = h

-- A text of five fields: the period of each step that is written with a star is at most the field's upper
-- bound.
abbrev pub StarsBound : List Text → CronExpression → Type 0
StarsBound (m ∷ h ∷ dom ∷ mon ∷ dow ∷ []) e =
    StarBound m 59 e.minute
    × StarBound h 23 e.hour
    × StarBound dom 31 e.day_of_month
    × StarBound mon 12 e.month
    × StarBound dow 7 e.day_of_week
StarsBound _ e = ⊥

parse_fields-StarsBound : (ps : List Text) → Ensures (StarsBound ps) (parse_fields ps)
unfolding parse_fields
parse_fields-StarsBound (m ∷ h ∷ dom ∷ mon ∷ dow ∷ []) =
    let P = StarsBound (m ∷ h ∷ dom ∷ mon ∷ dow ∷ []) in
    Ensures-bind P (parse_field m 0 59) _ λ a pa. Ensures-bind P (parse_field h 0 23) _ λ b pb.
      Ensures-bind P (parse_field dom 1 31) _ λ c pc.
        Ensures-bind P (parse_field mon 1 12) _ λ d pd.
          Ensures-bind P (parse_field dow 0 7) _ λ e pe. (
            parse_field-StarBound m 0 59 a pa,
            parse_field-StarBound h 0 23 b pb,
            parse_field-StarBound dom 1 31 c pc,
            parse_field-StarBound mon 1 12 d pd,
            parse_field-StarBound dow 0 7 e pe,
          )
parse_fields-StarsBound _ = tt

-- Every schedule that parses, whether of five fields, a named one or an `@every` one, has the values of
-- each field within the bounds of its place, and no period of a step is zero. One that is not named has five
-- fields, and the period of a step written with a star is at most the upper bound of its place.
pub parse-IsValid :
    (s : Text) (e : CronExpression)
    → parse s ≡ ok e
    → IsValid e × (parse_named (trim s) ≡ none → StarsBound (split_whitespace (trim s)) e)
unfolding parse
parse-IsValid s e h = (
  rw h at (
      named_or-IsValid (parse_named (trim s)) (parse_fields (split_whitespace (trim s)))
        (parse_named-Named (trim s)) (parse_fields-IsValid (split_whitespace (trim s)))),
  λ n. rw (rw n at h) at (parse_fields-StarsBound (split_whitespace (trim s))),
)
