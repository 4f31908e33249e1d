-- ===== src/Scheduler/Cron/Display/RoundTrip.antt =====
-- A field that parse returned, once printed, parses again, to the field that `reread` gives.
use mathlib.Core.List.{append-nil}
use lucy.Prelude.{
  Result, err, ltb, if◌then◌else◌, ℕ, ◌≤◌, ◌<◌, ◌≡◌, refl, true, false, none, some, List, [], ◌∷◌,
  ◌++◌, map, arith, All, ok, ◌==◌, ◌∙◌,
}
use lucy.Text.{
  Text, codes, text_eq, is_digit, is_whitespace, is_empty, trim, strip_prefix, split_once,
  contains_char, join,
}
use lucy.Text.Decimal.{
  show_u32, u32_max, IsDigits, show_u32-IsDigits, show_u32-ne, parse_u32-show_u32,
}
use lucy.Text.Digits.{show-NoSpace, show-avoid}
use lucy.Text.Laws.{
  Avoids, NoSpace, All-append, split_once-none, split_once-at, contains_char-avoid,
  contains_char-at, split-join, trim-NoSpace,
}
use lucy.Scheduler.Cron.{
  CronField, any_value, specific, range, values, step, InBounds, CronError, invalid_step,
}
use lucy.Scheduler.Cron.Parse.Bounds.{parse_field-InBounds}
use lucy.Scheduler.Cron.Parse.Shape.{IsParsed, parse_field-IsParsed}
use lucy.Scheduler.Cron.Parse.{parse_field, list_values, unstepped}
use lucy.Scheduler.Cron.Display.{show_field}

-- a text that begins with a digit is not `*`, and no step
star_no_digit :
    (s t : Text) → IsDigits s → is_empty s ≡ false → text_eq (s ++ t) (codes "*") ≡ false
unfolding is_digit
star_no_digit [] t h e = cc
star_no_digit (c ∷ s) t h e = ground arith

no_star_step :
    (s t : Text) → IsDigits s → is_empty s ≡ false → strip_prefix (codes "*/") (s ++ t) ≡ none
unfolding is_digit strip_prefix
no_star_step [] t h e = cc
no_star_step (c ∷ s) t h e = ground arith

-- a text that begins with a number, with no white space and no `/`
parse_plain :
    (lo hi n : ℕ) (t : Text)
    → NoSpace (show_u32 n ++ t)
    → Avoids b'/' (show_u32 n ++ t)
    → parse_field (show_u32 n ++ t) lo hi
      ≡ unstepped lo hi (show_u32 n ++ t) (split_once b'-' (show_u32 n ++ t))
unfolding parse_field
parse_plain lo hi n t h k = rw (trim-NoSpace _ h) (
    rw (star_no_digit (show_u32 n) t (show_u32-IsDigits n) (show_u32-ne n)) (
      rw (no_star_step (show_u32 n) t (show_u32-IsDigits n) (show_u32-ne n))
        (rw (split_once-none b'/' _ k))))

-- What comes back of a field: the end of a step is not printed, and a period above the bound is refused.
abbrev pub reread : ℕ → CronField → Result CronError CronField
reread hi (step n m) = if ltb hi n then err (invalid_step (show_u32 n)) else ok (step n hi)
reread hi f = ok f

comma_dash_slash : (is_digit b',' ≡ false) × (is_digit b'-' ≡ false) × (is_digit b'/' ≡ false)
unfolding is_digit
comma_dash_slash = (refl, refl, refl)

separators_NoSpace : (is_whitespace b',' ≡ false) × (is_whitespace b'-' ≡ false)
unfolding is_whitespace
separators_NoSpace = (refl, refl)

-- every part of the join satisfies `P`, and the comma does
All-join-comma {κ} :
    (P : ℕ → Type κ) (p : Text) (ps : List Text)
    → P b','
    → All (All P) (p ∷ ps)
    → All P (join (codes ",") (p ∷ ps))
unfolding join
All-join-comma P p [] c h = h.0
All-join-comma P p (q ∷ ps) c h =
    All-append P p (b',' ∷ join (codes ",") (q ∷ ps)) h.0 (c, All-join-comma P q ps c h.1)

All-map-show {κ} :
    (P : Text → Type κ) → ((n : ℕ) → P (show_u32 n)) → (ns : List ℕ) → All P (map show_u32 ns)
All-map-show P h [] = tt
All-map-show P h (n ∷ ns) = (h n, All-map-show P h ns)

comma_found :
    (v w : ℕ) (vs : List ℕ)
    → contains_char b',' (join (codes ",") (map show_u32 (v ∷ w ∷ vs))) ≡ true
unfolding join
comma_found v w vs = contains_char-at b',' (show_u32 v) _

star_NoSpace : (is_whitespace b'*' ≡ false) × (is_whitespace b'/' ≡ false)
unfolding is_whitespace
star_NoSpace = (refl, refl)

module _ (lo hi : ℕ) (fits : hi ≤ u32_max) where
  unstepped_single :
      (v : ℕ)
      → lo ≤ v
      → v ≤ hi
      → unstepped lo hi (show_u32 v) (split_once b'-' (show_u32 v)) ≡ ok (specific v)
  unfolding unstepped
  unstepped_single v a b = rw (split_once-none b'-' _ (show-avoid b'-' comma_dash_slash.1 v)) (
      rw (contains_char-avoid b',' _ (show-avoid b',' comma_dash_slash.0 v))
        (rw (parse_u32-show_u32 v (omega arith)) (ground arith)))

  parse_specific : (v : ℕ) → lo ≤ v → v ≤ hi → parse_field (show_u32 v) lo hi ≡ ok (specific v)
  parse_specific v a b =
      (rw append-nil at (
        parse_plain lo hi v [] (rw append-nil (show-NoSpace v))
          (rw append-nil (show-avoid b'/' comma_dash_slash.2 v))))
      ∙ unstepped_single v a b

  unstepped_range :
      (a b : ℕ) (s : Text)
      → lo ≤ a
      → a ≤ b
      → b ≤ hi
      → unstepped lo hi s (some (show_u32 a, show_u32 b)) ≡ ok (range a b)
  unfolding unstepped
  unstepped_range a b s p q r =
      rw (parse_u32-show_u32 a (omega arith))
        (rw (parse_u32-show_u32 b (omega arith)) (ground arith))

  parse_range :
      (a b : ℕ)
      → lo ≤ a
      → a ≤ b
      → b ≤ hi
      → parse_field (show_u32 a ++ b'-' ∷ show_u32 b) lo hi ≡ ok (range a b)
  parse_range a b p q r =
      parse_plain lo hi a (b'-' ∷ show_u32 b)
        (All-append (λ c. is_whitespace c ≡ false) (show_u32 a) _ (show-NoSpace a)
          (separators_NoSpace.1, show-NoSpace b))
        (All-append (λ c. (c == b'/') ≡ false) (show_u32 a) _ (show-avoid b'/' comma_dash_slash.2 a)
          (refl, show-avoid b'/' comma_dash_slash.2 b))
      ∙ rw (split_once-at b'-' (show_u32 a) (show_u32 b) (show-avoid b'-' comma_dash_slash.1 a))
          (unstepped_range a b _ p q r)

  list_values-show :
      (vs : List ℕ)
      → All (λ v. (lo ≤ v) × (v ≤ hi)) vs
      → list_values lo hi (map show_u32 vs) ≡ ok vs
  unfolding list_values
  list_values-show [] h = refl
  list_values-show (v ∷ vs) h =
      rw (trim-NoSpace (show_u32 v) (show-NoSpace v))
        (rw (parse_u32-show_u32 v (omega arith)) (ground (arith, list_values-show vs h.1)))

  unstepped_values :
      (v w : ℕ) (vs : List ℕ)
      → All (λ v. (lo ≤ v) × (v ≤ hi)) (v ∷ w ∷ vs)
      → unstepped lo hi (join (codes ",") (map show_u32 (v ∷ w ∷ vs))) none
        ≡ ok (values (v ∷ w ∷ vs))
  unfolding unstepped
  unstepped_values v w vs h = rw (comma_found v w vs) (
      rw
        (split-join b',' (show_u32 v) (map show_u32 (w ∷ vs))
          (All-map-show (Avoids b',') (show-avoid b',' comma_dash_slash.0) (v ∷ w ∷ vs)))
        (rw (list_values-show (v ∷ w ∷ vs) h)))

  parse_values :
      (v w : ℕ) (vs : List ℕ)
      → All (λ v. (lo ≤ v) × (v ≤ hi)) (v ∷ w ∷ vs)
      → parse_field (join (codes ",") (map show_u32 (v ∷ w ∷ vs))) lo hi ≡ ok (values (v ∷ w ∷ vs))
  unfolding join
  parse_values v w vs h =
      parse_plain lo hi v (b',' ∷ tail)
        (shown (λ c. is_whitespace c ≡ false) separators_NoSpace.0 show-NoSpace)
        (shown (λ c. (c == b'/') ≡ false) refl (show-avoid b'/' comma_dash_slash.2))
      ∙ rw
          (split_once-none b'-' whole
            (shown (λ c. (c == b'-') ≡ false) refl (show-avoid b'-' comma_dash_slash.1)))
          (unstepped_values v w vs h)
    where
      tail : Text
      tail = join (codes ",") (map show_u32 (w ∷ vs))

      whole : Text
      whole = join (codes ",") (map show_u32 (v ∷ w ∷ vs))

      shown :
          (P : ℕ → Type 0)
          → P b','
          → ((n : ℕ) → All P (show_u32 n))
          → All P (show_u32 v ++ b',' ∷ tail)
      shown P c f =
          All-append P (show_u32 v) _ (f v)
            (c, All-join-comma P (show_u32 w) (map show_u32 vs) c (All-map-show (All P) f (w ∷ vs)))

  parse_step :
      (n m : ℕ)
      → 0 < n
      → n ≤ u32_max
      → parse_field (b'*' ∷ b'/' ∷ show_u32 n) lo hi ≡ reread hi (step n m)
  unfolding parse_field
  parse_step n m a b =
      rw
        (trim-NoSpace (b'*' ∷ b'/' ∷ show_u32 n) (star_NoSpace.0, (star_NoSpace.1, show-NoSpace n)))
        (unfold strip_prefix in rw (parse_u32-show_u32 n b) (ground arith))

show_field-reread :
    (f : CronField) (lo hi : ℕ)
    → hi ≤ u32_max
    → InBounds lo hi f
    → IsParsed f
    → parse_field (show_field f) lo hi ≡ reread hi f
unfolding show_field
show_field-reread any_value lo hi fits b p = unfold parse_field trim in refl
show_field-reread (specific v) lo hi fits b p = parse_specific lo hi fits v b.0 b.1
show_field-reread (range x y) lo hi fits b p = parse_range lo hi fits x y b.0 b.1 b.2
show_field-reread (values []) lo hi fits b p = absurd p
show_field-reread (values (v ∷ [])) lo hi fits b p = absurd p
show_field-reread (values (v ∷ w ∷ vs)) lo hi fits b p = parse_values lo hi fits v w vs b
show_field-reread (step n m) lo hi fits b p = parse_step lo hi fits n m b.0 p

-- Every field that `parse` returns is printed as a text that parses to the same field, but for a step:
-- its end becomes the upper bound, and where its period is above the upper bound, as `parse` accepts after
-- a range or a value, the text is refused.
pub parse_field-show_field :
    (s : Text) (f : CronField) (lo hi : ℕ)
    → hi ≤ u32_max
    → parse_field s lo hi ≡ ok f
    → parse_field (show_field f) lo hi ≡ reread hi f
parse_field-show_field s f lo hi fits h =
    show_field-reread f lo hi fits (parse_field-InBounds s lo hi f h)
      (parse_field-IsParsed s lo hi f h)
