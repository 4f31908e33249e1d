-- ===== src/Scheduler/Cron.antt =====
-- crates/lucy-scheduler/src/cron.rs: the fields and expressions, and the test on a value.
pub mod Parse
pub mod Display
pub mod Every
pub mod Expression
pub mod Next
pub mod Minutes
mod Tests
use lucy.Prelude.{
  ℕ, ◌%◌, ◌≤◌, ◌<◌, Bool, true, false, ◌&&◌, Option, none, some, List, [], ◌∷◌, leb, ltb, ◌==◌,
  if◌then◌else◌, All, min, max,
}
use lucy.Text.{Text}

pub data CronField : Type 0 where
  any_value : CronField
  specific : ℕ → CronField
  range : ℕ → ℕ → CronField
  values : List ℕ → CronField
  step : ℕ → ℕ → CronField

pub data CronError : Type 0 where
  wrong_field_count : ℕ → CronError
  invalid_value invalid_range invalid_step invalid_named invalid_every : Text → CronError
  out_of_range : Text → ℕ → ℕ → CronError

pub record CronExpression : Type 0 where
  pub minute : CronField
  pub hour : CronField
  pub day_of_month : CronField
  pub month : CronField
  pub day_of_week : CronField

abbrev pub elem : ℕ → List ℕ → Bool
elem v [] = false
elem v (x ∷ xs) = if x == v then true else elem v xs

-- `CronField::matches`. `is_multiple_of(0)` holds of 0 alone, as `value % 0` is `value`.
unfoldable pub matches : CronField → ℕ → Bool
matches any_value value = true
matches (specific v) value = value == v
matches (range lo hi) value = leb lo value && leb value hi
matches (values vs) value = elem value vs
matches (step n hi) value = value % n == 0 && leb value hi

abbrev min_list : ℕ → List ℕ → ℕ
min_list m [] = m
min_list m (x ∷ xs) = min_list (min m x) xs

abbrev max_list : ℕ → List ℕ → ℕ
max_list m [] = m
max_list m (x ∷ xs) = max_list (max m x) xs

abbrev fold_or : (ℕ → List ℕ → ℕ) → ℕ → List ℕ → ℕ
fold_or f d [] = d
fold_or f d (x ∷ xs) = f x xs

unfoldable pub min_value : CronField → ℕ
min_value any_value = 0
min_value (specific v) = v
min_value (range lo hi) = lo
min_value (values vs) = fold_or min_list 0 vs
min_value (step n hi) = 0

unfoldable pub max_value : CronField → ℕ → ℕ
max_value any_value absolute_max = absolute_max
max_value (specific v) absolute_max = v
max_value (range lo hi) absolute_max = hi
max_value (values vs) absolute_max = fold_or max_list absolute_max vs
max_value (step n hi) absolute_max = hi

-- What a field parsed against the bounds `lo` to `hi` may hold.
abbrev pub InBounds : ℕ → ℕ → CronField → Type 0
InBounds lo hi any_value = Unit {0}
InBounds lo hi (specific v) = (lo ≤ v) × (v ≤ hi)
InBounds lo hi (range a b) = (lo ≤ a) × (a ≤ b) × (b ≤ hi)
InBounds lo hi (values vs) = All (λ v. (lo ≤ v) × (v ≤ hi)) vs
InBounds lo hi (step n m) = (0 < n) × (m ≤ hi)

-- Every field is within the bounds of its place.
pub record IsValid (e : CronExpression) : Type 0 where
  pub minute : InBounds 0 59 e.minute
  pub hour : InBounds 0 23 e.hour
  pub day_of_month : InBounds 1 31 e.day_of_month
  pub month : InBounds 1 12 e.month
  pub day_of_week : InBounds 0 7 e.day_of_week
