-- ===== src/Core/Truncate/Shape.antt =====
-- What the shortened text keeps.
use lucy.Prelude.{
  ℕ, zero, suc, ◌+◌, ◌-◌, ◌≤◌, ◌<◌, ◌≡◌, refl, ap, List, [], ◌∷◌, ◌++◌, arith, length, take, drop,
  length-append, length-take, length-drop,
}
use lucy.Text.{Text}
use lucy.Core.Truncate.{head_count, tail_count, note, truncated}

take-append_self {ℓ} :
    {A : Type ℓ} (n : ℕ) (xs ys : List A) → n ≤ length xs → take n (take n xs ++ ys) ≡ take n xs
take-append_self zero xs ys h = refl
take-append_self (suc n) [] ys h = absurd (omega arith)
take-append_self (suc n) (x ∷ xs) ys h = ap (λ r. x ∷ r) (take-append_self n xs ys (omega arith))

drop-append_self {ℓ} :
    {A : Type ℓ} (n : ℕ) (xs ys : List A) (y : A)
    → n ≤ length xs
    → drop (suc n) (take n xs ++ y ∷ ys) ≡ ys
drop-append_self zero xs ys y h = refl
drop-append_self (suc n) [] ys y h = absurd (omega arith)
drop-append_self (suc n) (x ∷ xs) ys y h = drop-append_self n xs ys y (omega arith)

-- Of more lines than allowed, the shortened list keeps the first 60 percent of the allowance and the
-- last lines of it, in that order, with one note between them that counts the lines left out; it has
-- one line more than the allowance.
pub truncated_shape :
    (ls : List Text) (max_lines : ℕ)
    → max_lines < length ls
    → (length (truncated ls max_lines) ≡ max_lines + 1)
      × (take (head_count max_lines) (truncated ls max_lines) ≡ take (head_count max_lines) ls)
      × (drop (suc (head_count max_lines)) (truncated ls max_lines)
          ≡ drop (length ls - tail_count max_lines) ls)
      × (truncated ls max_lines
          ≡ take (head_count max_lines) ls
            ++ note (length ls - max_lines) ∷ drop (length ls - tail_count max_lines) ls)
unfolding truncated
truncated_shape ls max_lines h = (
  omega (
    arith,
    length-append {0} (take (head_count max_lines) ls) _,
    length-take {0} (head_count max_lines) ls,
    length-drop {0} (length ls - tail_count max_lines) ls,
  ),
  take-append_self (head_count max_lines) ls _ (omega arith),
  drop-append_self (head_count max_lines) ls _ _ (omega arith),
  ap (λ k. take (head_count max_lines) ls ++ note k ∷ drop (length ls - tail_count max_lines) ls)
      (omega arith),
)
