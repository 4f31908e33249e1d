-- ===== src/Gateway/Auth/Compare.antt =====
-- The comparison of digests without an early exit decides equality of byte strings.
use Prim.Native.Nat.{bit_or, bit_xor}
use lucy.Prelude.{
  ℕ, zero, suc, ◌<◌, ◌≡◌, ◌↔◌, refl, Bool, true, false, ◌&&◌, [], ◌∷◌, arith, ◌==◌, ltb, length,
  All, Bool-cases, inl, inr,
}
use lucy.Text.{Text}
use lucy.Gateway.Auth.{constant_time_eq, fold_diff}

abbrev pub IsBytes : Text → Type 0
IsBytes = All (λ c. c < 256)

all_below : ℕ → (ℕ → Bool) → Bool
all_below zero p = true
all_below (suc n) p = p n && all_below n p

all_below-at : (n : ℕ) (p : ℕ → Bool) (x : ℕ) → all_below n p ≡ true → x < n → p x ≡ true
unfolding all_below
all_below-at zero p x h lt = absurd (omega arith)
all_below-at (suc n) p x h lt = ground (arith, all_below-at n p x)

abbrev both_ways : Bool → Bool → Bool
both_ways true b = b
both_ways false true = false
both_ways false false = true

-- what is used of `|` and `^` on two bytes
abbrev byte_facts : ℕ → ℕ → Bool
byte_facts x y =
    ltb (bit_xor x y) 256
    && ltb (bit_or x y) 256
    && both_ways (bit_xor x y == 0) (x == y)
    && both_ways (bit_or x y == 0) (x == 0 && y == 0)

byte_table : all_below 256 (λ x. all_below 256 (byte_facts x)) ≡ true
unfolding all_below
byte_table = refl

byte_facts_hold : (x y : ℕ) → x < 256 → y < 256 → byte_facts x y ≡ true
byte_facts_hold x y h k =
    all_below-at 256 (byte_facts x) y
      (all_below-at 256 (λ z. all_below 256 (byte_facts z)) x byte_table h) k

byte_bounds : (x y : ℕ) → x < 256 → y < 256 → (bit_xor x y < 256) × (bit_or x y < 256)
byte_bounds x y h k = ground (arith, byte_facts_hold x y h k)

xor-zero : (x y : ℕ) → x < 256 → y < 256 → (bit_xor x y ≡ 0) ↔ (x ≡ y)
xor-zero x y h k = ground (arith, byte_facts_hold x y h k)

or-zero : (x y : ℕ) → x < 256 → y < 256 → (bit_or x y ≡ 0) ↔ ((x ≡ 0) × (y ≡ 0))
or-zero x y h k = ground (arith, byte_facts_hold x y h k)

fold_diff-zero :
    (diff : ℕ) (a b : Text)
    → diff < 256
    → IsBytes a
    → IsBytes b
    → length a ≡ length b
    → fold_diff diff a b ≡ 0
    → (diff ≡ 0) × (a ≡ b)
unfolding fold_diff
fold_diff-zero diff [] [] d h k e z = (z, refl)
fold_diff-zero diff [] (y ∷ b) d h k e z = absurd (omega arith)
fold_diff-zero diff (x ∷ a) [] d h k e z = absurd (omega arith)
fold_diff-zero diff (x ∷ a) (y ∷ b) d h k e z =
    let bounds = byte_bounds x y h.0 k.0 in
    let wide = byte_bounds diff (bit_xor x y) d bounds.0 in
    let ih = fold_diff-zero (bit_or diff (bit_xor x y)) a b wide.1 h.1 k.1 (omega arith) z in
    let parts = (or-zero diff (bit_xor x y) d bounds.0).0 ih.0 in
    (parts.0, cc ((xor-zero x y h.0 k.0).0 parts.1, ih.1))

fold_diff_self : (a : Text) → IsBytes a → fold_diff 0 a a ≡ 0
unfolding fold_diff
fold_diff_self [] h = refl
fold_diff_self (x ∷ a) h =
    rw ((xor-zero x x h.0 h.0).1 refl)
      (rw ((or-zero 0 0 (omega arith) (omega arith)).1 (refl, refl)) (fold_diff_self a h.1))

-- On byte strings `constant_time_eq` is true exactly of equal ones.
pub constant_time_eq_iff :
    (a b : Text) → IsBytes a → IsBytes b → (constant_time_eq a b ≡ true) ↔ (a ≡ b)
unfolding constant_time_eq
constant_time_eq_iff a b h k = (there, back)
  where
    there : constant_time_eq a b ≡ true → a ≡ b
    there e = elim (Bool-cases (length a == length b)) [
      | inl q ↦ (fold_diff-zero 0 a b (omega arith) h k (ground arith) (ground arith)).1
      | inr q ↦ cc q
    ]

    back : a ≡ b → constant_time_eq a b ≡ true
    back e = rw (← e) (rw (fold_diff_self a h) (ground arith))
