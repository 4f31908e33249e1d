-- ===== src/Text/Decimal.antt =====
-- `str::parse::<u32>` and `u32::to_string`, and that the first undoes the second.
use lucy.Prelude.{
  ℕ, zero, suc, ◌+◌, ◌-◌, ◌*◌, ◌/◌, ◌%◌, ◌^◌, ◌≤◌, ◌<◌, ◌≡◌, refl, true, false, Option, none, some,
  [], ◌∷◌, ◌++◌, arith, ltb, ◌==◌, if◌then◌else◌, All, Bool-cases, inl, inr, ltb→lt, ◌∙◌, ap,
}
use lucy.Text.{Text, is_digit, is_empty}

abbrev pub u32_max : ℕ
u32_max = 2 ^ 32 - 1

digits_value : ℕ → Text → Option ℕ
digits_value n [] = some n
digits_value n (c ∷ s) = if is_digit c then digits_value (n * 10 + (c - 48)) s else none

abbrev in_u32 : Option ℕ → Option ℕ
in_u32 none = none
in_u32 (some n) = if ltb u32_max n then none else some n

-- One sign `+` is skipped, unless it stands alone.
abbrev skip_plus : Text → Text
skip_plus [] = []
skip_plus (c ∷ []) = c ∷ []
skip_plus (c ∷ d ∷ s) = if c == 43 then d ∷ s else c ∷ d ∷ s

abbrev nonempty_digits : Text → Option ℕ
nonempty_digits [] = none
nonempty_digits (c ∷ s) = in_u32 (digits_value 0 (c ∷ s))

unfoldable pub parse_u32 : Text → Option ℕ
unfolding digits_value is_digit
parse_u32 s = nonempty_digits (skip_plus s)

show_fuel : ℕ → ℕ → Text
show_fuel zero n = []
show_fuel (suc f) n =
    let front = show_fuel f (n / 10) in
    if ltb n 10 then (48 + n) ∷ [] else front ++ (48 + n % 10) ∷ []

-- `to_string` of a u32; `n` halts the recursion long before the fuel ends.
unfoldable pub show_u32 : ℕ → Text
unfolding show_fuel
show_u32 n = show_fuel (suc n) n

abbrev pub IsDigits : Text → Type 0
IsDigits = All (λ c. is_digit c ≡ true)

IsDigits-append : (s t : Text) → IsDigits s → IsDigits t → IsDigits (s ++ t)
IsDigits-append [] t h k = k
IsDigits-append (c ∷ s) t h k = (h.0, IsDigits-append s t h.1 k)

is_digit_add : (n : ℕ) → n < 10 → is_digit (48 + n) ≡ true
unfolding is_digit
is_digit_add n h = ground arith

show_fuel-IsDigits : (f n : ℕ) → IsDigits (show_fuel f n)
unfolding show_fuel
show_fuel-IsDigits zero n = tt
show_fuel-IsDigits (suc f) n = elim (Bool-cases (ltb n 10)) [
  | inl e ↦ rw e (is_digit_add n (ground arith), tt)
  | inr e ↦ rw e (
      IsDigits-append (show_fuel f (n / 10)) _ (show_fuel-IsDigits f (n / 10))
        (is_digit_add (n % 10) (omega arith), tt))
]

pub show_u32-IsDigits : (n : ℕ) → IsDigits (show_u32 n)
unfolding show_u32
show_u32-IsDigits n = show_fuel-IsDigits (suc n) n

digits_value-snoc :
    (n : ℕ) (s : Text) (c : ℕ) {v : ℕ}
    → digits_value n s ≡ some v
    → is_digit c ≡ true
    → digits_value n (s ++ c ∷ []) ≡ some (v * 10 + (c - 48))
unfolding digits_value
digits_value-snoc n [] c h d = ground arith
digits_value-snoc n (x ∷ s) c {v} h d =
    ground (arith, digits_value-snoc (n * 10 + (x - 48)) s c {v = v})

-- With more fuel than the number, the digits shown have its value.
show_fuel_value : (f n : ℕ) → n < f → digits_value 0 (show_fuel f n) ≡ some n
unfolding show_fuel
show_fuel_value zero n h = absurd (omega arith)
show_fuel_value (suc f) n h = elim (Bool-cases (ltb n 10)) [
  | inl e ↦ rw e (one_digit n (ltb→lt n 10 e))
  | inr e ↦ rw e (
      digits_value-snoc 0 (show_fuel f (n / 10)) (48 + n % 10)
        (show_fuel_value f (n / 10) (ground arith)) (is_digit_add (n % 10) (omega arith))
      ∙ ap some (omega arith))
]
  where
    one_digit : (n : ℕ) → n < 10 → digits_value 0 ((48 + n) ∷ []) ≡ some n
    one_digit n h = unfold digits_value in ground (arith, is_digit_add n h)

show_fuel-ne : (f n : ℕ) → is_empty (show_fuel (suc f) n) ≡ false
unfolding show_fuel
show_fuel-ne f n = elim (Bool-cases (ltb n 10)) [
  | inl e ↦ rw e refl
  | inr e ↦ rw e (append-ne (show_fuel f (n / 10)) _)
]
  where
    append-ne : (s : Text) (c : ℕ) → is_empty (s ++ c ∷ []) ≡ false
    append-ne [] c = refl
    append-ne (x ∷ s) c = refl

pub show_u32-ne : (n : ℕ) → is_empty (show_u32 n) ≡ false
unfolding show_u32
show_u32-ne n = show_fuel-ne n n

digit-ne-plus : (c : ℕ) → is_digit c ≡ true → (c == 43) ≡ false
unfolding is_digit
digit-ne-plus c h = ground arith

parse_u32_of_digits :
    (s : Text) (n : ℕ)
    → IsDigits s
    → digits_value 0 s ≡ some n
    → is_empty s ≡ false
    → n ≤ u32_max
    → parse_u32 s ≡ some n
unfolding parse_u32
parse_u32_of_digits [] n d v e h = cc
parse_u32_of_digits (c ∷ []) n d v e h = rw v (ground arith)
parse_u32_of_digits (c ∷ x ∷ s) n d v e h = rw (digit-ne-plus c d.0) (rw v (ground arith))

-- A u32 that is printed parses to itself.
pub parse_u32-show_u32 : (n : ℕ) → n ≤ u32_max → parse_u32 (show_u32 n) ≡ some n
unfolding show_u32
parse_u32-show_u32 n h =
    parse_u32_of_digits (show_fuel (suc n) n) n (show_fuel-IsDigits (suc n) n)
      (show_fuel_value (suc n) n (omega arith)) (show_fuel-ne n n) h

-- A u32 that parses is in range.
pub parse_u32-le : (s : Text) (n : ℕ) → parse_u32 s ≡ some n → n ≤ u32_max
unfolding parse_u32
parse_u32-le [] n h = cc
parse_u32-le (c ∷ []) n h = ground arith
parse_u32-le (c ∷ d ∷ s) n h = ground arith
