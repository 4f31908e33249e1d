-- ===== src/Runtime/Lane/Anchor/Best.antt =====
-- The anchor is the first of the names on the screen that score highest.
use lucy.Prelude.{
  ℕ, suc, ◌≤◌, ◌<◌, ◌≡◌, ◌⊎◌, refl, sym, ap, Bool, Option, none, some, List, [], ◌∷◌, ◌++◌, arith,
  All, Bool-cases, inl, inr, ltb, if◌then◌else◌,
}
use mathlib.Core.Path.{subst}
use lucy.Text.{Text}
use lucy.Runtime.Lane.Anchor.{
  anchor_content_words, candidate, better, best_of, name_of, anchor_to_visible_name,
}

abbrev pub rank : Option (ℕ × Text) → ℕ
rank none = 0
rank (some c) = suc c.0

better-rank : (b c : Option (ℕ × Text)) → better b c ≡ (if ltb (rank b) (rank c) then c else b)
better-rank none none = refl
better-rank (some b) none = ground arith
better-rank none (some c) = ground arith
better-rank (some b) (some c) = ground arith

-- every entry before ranks lower, and every entry after no higher
abbrev pub IsFirstBest : List Text → List Text → Option (ℕ × Text) → Type 0
IsFirstBest words es r =
    (pre : List Text) × (e : Text) × (post : List Text) × (es ≡ pre ++ (e ∷ post))
    × (candidate words e ≡ r)
    × All (λ x. rank (candidate words x) < rank r) pre
    × All (λ x. rank (candidate words x) ≤ rank r) post

abbrev Chosen : List Text → Option (ℕ × Text) → List Text → Option (ℕ × Text) → Type 0
Chosen words b es r =
    ((r ≡ b) × All (λ x. rank (candidate words x) ≤ rank b) es)
    ⊎ ((rank b < rank r) × IsFirstBest words es r)

takes_here :
    (words : List Text) (b : Option (ℕ × Text)) (e : Text) (es : List Text) (r : Option (ℕ × Text))
    → rank b < rank (candidate words e)
    → Chosen words (candidate words e) es r
    → Chosen words b (e ∷ es) r
takes_here words b e es r l (inl (same, all)) = inr (
  subst (λ q. rank b < rank q) (sym same) l,
  (
    [],
    e,
    es,
    refl,
    sym same,
    tt,
    subst (λ q. All (λ x. rank (candidate words x) ≤ rank q) es) (sym same) all,
  ),
)
takes_here words b e es r l (inr (m, (pre, x, post, q, c, low, high))) =
    inr (omega (arith, l, m), (e ∷ pre, x, post, ap (λ t. e ∷ t) q, c, (m, low), high))

takes_later :
    (words : List Text) (b : Option (ℕ × Text)) (e : Text) (es : List Text) (r : Option (ℕ × Text))
    → rank (candidate words e) ≤ rank b
    → Chosen words b es r
    → Chosen words b (e ∷ es) r
takes_later words b e es r l (inl (same, all)) = inl (same, (l, all))
takes_later words b e es r l (inr (m, (pre, x, post, q, c, low, high))) =
    inr (m, (e ∷ pre, x, post, ap (λ t. e ∷ t) q, c, (omega (arith, l, m), low), high))

best_of-Chosen :
    (words : List Text) (b : Option (ℕ × Text)) (es : List Text)
    → Chosen words b es (best_of words b es)
best_of-Chosen words b [] = inl (refl, tt)
best_of-Chosen words b (e ∷ es) =
    let c = candidate words e in
    elim (Bool-cases (ltb (rank b) (rank c))) [
      | inl h ↦
          rw (better-rank b c, h)
            (takes_here words b e es (best_of words c es) (ground (arith, h))
              (best_of-Chosen words c es))
      | inr h ↦
          rw (better-rank b c, h)
            (takes_later words b e es (best_of words b es) (ground (arith, h))
              (best_of-Chosen words b es))
    ]

some_eq : (n name : Text) → name_of (some (0, n)) ≡ some name → n ≡ name
some_eq n name h = cc

first_best :
    (words es : List Text) (name : Text) (r : Option (ℕ × Text))
    → Chosen words none es r
    → name_of r ≡ some name
    → (k : ℕ) × IsFirstBest words es (some (k, name))
first_best words es name none c h = absurd (ground (arith, h))
first_best words es name (some (k, n)) (inl (same, all)) h = absurd (ground (arith, same))
first_best words es name (some (k, n)) (inr (l, f)) h =
    (k, subst (λ m. IsFirstBest words es (some (k, m))) (some_eq n name h) f)

anchored :
    (words es : List Text) (name : Text)
    → elim words as (λ _. Option Text) [ [] ↦ none | w ∷ ws ↦ name_of (best_of (w ∷ ws) none es) ]
      ≡ some name
    → (k : ℕ) × IsFirstBest words es (some (k, name))
anchored [] es name h = absurd (ground (arith, h))
anchored (w ∷ ws) es name h =
    first_best (w ∷ ws) es name (best_of (w ∷ ws) none es) (best_of-Chosen (w ∷ ws) none es) h

-- The name that a retry is aimed at is that of the first entry on the screen that scores highest for the
-- instruction's words: the entry is a candidate, all entries before it score less or are none, and no entry
-- after it scores more.
pub anchor_to_visible_name-IsFirstBest :
    (alnum : ℕ → Bool) (instruction : Text) (described : List Text) (name : Text)
    → anchor_to_visible_name alnum instruction described ≡ some name
    → (k : ℕ) × IsFirstBest (anchor_content_words alnum instruction) described (some (k, name))
unfolding anchor_to_visible_name
anchor_to_visible_name-IsFirstBest alnum instruction described name h =
    anchored (anchor_content_words alnum instruction) described name h
