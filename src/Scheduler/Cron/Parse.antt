-- ===== src/Scheduler/Cron/Parse.antt =====
-- `CronField::parse` of crates/lucy-scheduler/src/cron.rs.
pub mod Bounds
pub mod Shape
use lucy.Prelude.{
  ℕ, Bool, true, false, ◌&&◌, ◌||◌, Option, none, some, List, [], ◌∷◌, ltb, ◌==◌, if◌then◌else◌,
  Result, ok, err, ok_or, ◌>>=◌,
}
use lucy.Text.{Text, codes, text_eq, trim, strip_prefix, split_once, contains_char, split}
use lucy.Text.Decimal.{parse_u32}
use lucy.Scheduler.Cron.{
  CronField, any_value, specific, range, values, step, CronError, invalid_value, invalid_range,
  invalid_step, out_of_range,
}

abbrev pub FieldResult : Type 0
FieldResult = Result CronError CronField

-- `*/N`
star_step : ℕ → Text → FieldResult
star_step hi step_str = do
  n ← ok_or (parse_u32 step_str) (invalid_step step_str)
  if n == 0 || ltb hi n then err (invalid_step step_str) else ok (step n hi)

-- `lo`, `hi` of a range whose text is `whole`
range_bounds : ℕ → ℕ → Text → Text → Text → Result CronError (ℕ × ℕ)
range_bounds min max whole lo_str hi_str = do
  lo ← ok_or (parse_u32 lo_str) (invalid_range whole)
  hi ← ok_or (parse_u32 hi_str) (invalid_range whole)
  if ltb lo min || ltb max hi || ltb hi lo then err (invalid_range whole) else ok (lo, hi)

-- the part before `/`: `a-b`, or a single value
stepped_part : ℕ → ℕ → ℕ → Text → Option (Text × Text) → FieldResult
unfolding range_bounds
stepped_part min max n range_part (some (lo_str, hi_str)) = do
  b ← range_bounds min max range_part lo_str hi_str
  ok (step n b.1)
stepped_part min max n range_part none = do
  lo ← ok_or (parse_u32 range_part) (invalid_value range_part)
  if ltb lo min || ltb max lo then err (out_of_range range_part min max) else ok (step n max)

-- `a-b/N` and `a/N`
stepped : ℕ → ℕ → Text → Text → FieldResult
unfolding stepped_part
stepped min max range_part step_part = do
  n ← ok_or (parse_u32 step_part) (invalid_step step_part)
  if n == 0
      then err (invalid_step step_part)
      else stepped_part min max n range_part (split_once b'-' range_part)

-- the loop over the parts of `a,b,c`
unfoldable pub list_values : ℕ → ℕ → List Text → Result CronError (List ℕ)
list_values min max [] = ok []
list_values min max (part ∷ parts) = do
  v ← ok_or (parse_u32 (trim part)) (invalid_value (trim part))
  rest ←
      if ltb v min || ltb max v then err (invalid_value (trim part)) else list_values min max parts
  ok (v ∷ rest)

single : ℕ → ℕ → Text → FieldResult
single min max s = do
  v ← ok_or (parse_u32 s) (invalid_value s)
  if ltb v min || ltb max v then err (out_of_range s min max) else ok (specific v)

list_or_single : ℕ → ℕ → Text → FieldResult
unfolding single
list_or_single min max s =
    if contains_char b',' s
    then (do vs ← list_values min max (split b',' s); ok (values vs))
    else single min max s

-- a range, if the text has a `-`
unfoldable pub unstepped : ℕ → ℕ → Text → Option (Text × Text) → FieldResult
unfolding list_or_single range_bounds
unstepped min max s (some (lo_str, hi_str)) = do
  b ← range_bounds min max s lo_str hi_str
  ok (range b.0 b.1)
unstepped min max s none = list_or_single min max s

-- a step, if the text has a `/`
unstarred : ℕ → ℕ → Text → Option (Text × Text) → FieldResult
unfolding stepped unstepped
unstarred min max s (some (range_part, step_part)) = stepped min max range_part step_part
unstarred min max s none = unstepped min max s (split_once b'-' s)

with_star : ℕ → ℕ → Text → Option Text → FieldResult
unfolding star_step unstarred
with_star min max s (some step_str) = star_step max step_str
with_star min max s none = unstarred min max s (split_once b'/' s)

parse_trimmed : ℕ → ℕ → Text → FieldResult
unfolding with_star
parse_trimmed min max s =
    if text_eq s (codes "*")
    then ok any_value
    else with_star min max s (strip_prefix (codes "*/") s)

-- `CronField::parse(s, min, max)`
unfoldable pub parse_field : Text → ℕ → ℕ → FieldResult
unfolding parse_trimmed
parse_field s min max = parse_trimmed min max (trim s)
