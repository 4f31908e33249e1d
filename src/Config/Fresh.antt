-- ===== src/Config/Fresh.antt =====
-- The id that a provider without one is given is not in use.
use lucy.Prelude.{
  ℕ, zero, suc, ◌+◌, ◌^◌, ◌≤◌, ◌<◌, ◌≡◌, inl, inr, ◌≢◌, refl, sym, ◌∙◌, Bool, true, false, not,
  List, [], ◌∷◌, ◌++◌, arith, any, keep, length, length-keep_le, Bool-cases,
}
use lucy.Text.{Text, is_empty, trim, to_ascii_lowercase, lower_char, is_digit}
use lucy.Text.Decimal.{u32_max, show_u32, parse_u32-show_u32, IsDigits, show_u32-IsDigits}
use lucy.Text.Equality.{eq_of_text_eq}
use lucy.Config.{Provider, same_word}
use lucy.Config.Providers.{candidate_id, is_taken, free_from, ensure_id, id_slug, dash}

module _ {A : Type 0} (p : A → Bool) where
  length-keep_lt : (xs : List A) → any p xs ≡ true → length (keep (λ x. not (p x)) xs) < length xs
  length-keep_lt [] h = ground arith
  length-keep_lt (x ∷ xs) h = ground (arith, length-keep_lt xs, length-keep_le (λ x. not (p x)) xs)

  any-keep :
      (q : A → Bool) (xs : List A)
      → ((x : A) → p x ≡ true → q x ≡ false)
      → any q xs ≡ true
      → any q (keep (λ x. not (p x)) xs) ≡ true
  any-keep q [] apart h = ground arith
  any-keep q (x ∷ xs) apart h = ground (arith, any-keep q xs apart, apart x)

cancel :
    (b s t : Text)
    → to_ascii_lowercase (b ++ s) ≡ to_ascii_lowercase (b ++ t)
    → to_ascii_lowercase s ≡ to_ascii_lowercase t
cancel [] s t h = h
cancel (c ∷ b) s t h = cancel b s t (ground arith)

lower_digit : (c : ℕ) → is_digit c ≡ true → lower_char c ≡ c
unfolding is_digit
lower_digit c h = ground arith

lower-IsDigits : (s : Text) → IsDigits s → to_ascii_lowercase s ≡ s
lower-IsDigits [] h = refl
lower-IsDigits (c ∷ s) h = rw (lower_digit c h.0, lower-IsDigits s h.1) refl

longer : (b : Text) (c : ℕ) (s : Text) → to_ascii_lowercase b ≢ to_ascii_lowercase (b ++ c ∷ s)
longer [] c s h = ground arith
longer (d ∷ b) c s h = longer b c s (ground arith)

show_u32-lower :
    (m n : ℕ)
    → m ≤ u32_max
    → n ≤ u32_max
    → to_ascii_lowercase (show_u32 m) ≡ to_ascii_lowercase (show_u32 n)
    → m ≡ n
show_u32-lower m n h k e = ground (
  arith,
  parse_u32-show_u32 m h,
  parse_u32-show_u32 n k,
  lower-IsDigits (show_u32 m) (show_u32-IsDigits m),
  lower-IsDigits (show_u32 n) (show_u32-IsDigits n),
)

candidate_id-lower :
    (base : Text) (i j : ℕ)
    → i + 2 < 2 ^ 31
    → j + 2 < 2 ^ 31
    → to_ascii_lowercase (candidate_id base i) ≡ to_ascii_lowercase (candidate_id base j)
    → i ≡ j
unfolding candidate_id
candidate_id-lower base zero zero h k e = refl
candidate_id-lower base zero (suc j) h k e = absurd (longer base _ _ e)
candidate_id-lower base (suc i) zero h k e = absurd (longer base _ _ (sym e))
candidate_id-lower base (suc i) (suc j) h k e = omega (
  arith,
  show_u32-lower (i + 2) (j + 2) (omega arith) (omega arith)
      (after_dash _ _ (cancel base (dash ∷ show_u32 (i + 2)) (dash ∷ show_u32 (j + 2)) e)),
)
  where
    after_dash :
        (s t : Text)
        → to_ascii_lowercase (dash ∷ s) ≡ to_ascii_lowercase (dash ∷ t)
        → to_ascii_lowercase s ≡ to_ascii_lowercase t
    after_dash s t q = cc

-- one id in use stands for one candidate at most
apart :
    (base t : Text) (i j : ℕ)
    → i + 2 < 2 ^ 31
    → j + 2 < 2 ^ 31
    → i ≢ j
    → same_word t (candidate_id base i) ≡ true
    → same_word t (candidate_id base j) ≡ false
apart base t i j h k ne e = elim (Bool-cases (same_word t (candidate_id base j))) [
  | inl d ↦
      absurd
        (ne (candidate_id-lower base i j h k (sym (eq_of_text_eq _ _ e) ∙ eq_of_text_eq _ _ d)))
  | inr d ↦ d
]

-- as many ids are in use as there are candidates that are taken
none_taken : (ts : List Text) (name : Text) → is_taken ts name ≡ true → 0 < length ts
unfolding is_taken
none_taken [] name h = ground arith
none_taken (t ∷ ts) name h = omega arith

pigeons :
    (base : Text) (ts : List Text) (n : ℕ)
    → n + 2 < 2 ^ 31
    → ((i : ℕ) → i ≤ n → is_taken ts (candidate_id base i) ≡ true)
    → n < length ts
unfolding is_taken
pigeons base ts zero h all_taken = none_taken ts (candidate_id base 0) (all_taken 0 (omega arith))
pigeons base ts (suc n) h all_taken = omega (
  arith,
  length-keep_lt (λ t. same_word t (candidate_id base (suc n))) ts
      (all_taken (suc n) (omega arith)),
  pigeons base (keep (λ t. not (same_word t (candidate_id base (suc n)))) ts) n (omega arith)
      (λ i k.
        any-keep (λ t. same_word t (candidate_id base (suc n)))
          (λ t. same_word t (candidate_id base i)) ts
          (λ t. apart base t (suc n) i h (omega arith) (λ e. absurd (omega arith)))
          (all_taken i (omega arith))),
)

all_taken :
    (ts : List Text) (base : Text) (f k i : ℕ)
    → is_taken ts (free_from ts base f k) ≡ true
    → k ≤ i
    → i ≤ k + f
    → is_taken ts (candidate_id base i) ≡ true
unfolding free_from
all_taken ts base zero k i e lo hi = rw equal_index e
  where
    equal_index : i ≡ k
    equal_index = omega arith
all_taken ts base (suc f) k i e lo hi = elim (Bool-cases (is_taken ts (candidate_id base k))) [
  | inl d ↦ ground (arith, d, all_taken ts base f (suc k) i)
  | inr d ↦ absurd (ground arith)
]

-- The id that a provider without one gets differs from every id in use, letter case aside, where fewer
-- than 2^31 - 2 ids are in use.
pub ensure_id-IsFresh :
    (taken : List Text) (p : Provider)
    → is_empty (trim p.id) ≡ true
    → length taken + 2 < 2 ^ 31
    → is_taken taken (ensure_id taken p).id ≡ false
unfolding ensure_id
ensure_id-IsFresh taken p blank few =
    elim (Bool-cases (is_taken taken (free_from taken (id_slug p) (length taken) 0))) [
      | inl e ↦ absurd (
          omega (
            arith,
            pigeons (id_slug p) taken (length taken) few (λ i k.
                all_taken taken (id_slug p) (length taken) 0 i e (omega arith) (omega arith)),
          ))
      | inr e ↦ rw blank e
    ]
