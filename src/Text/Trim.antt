-- ===== src/Text/Trim.antt =====
-- Trimming twice is trimming once, and no trimming makes a text longer.
use lucy.Prelude.{
  ℕ, ◌≤◌, ◌<◌, ◌≡◌, refl, ap, ◌∙◌, false, ◌&&◌, some, [], ◌∷◌, arith, length, Bool-cases, inl, inr,
}
use lucy.Text.{
  Text, is_empty, is_whitespace, trim, trim_start, trim_end, contains_char, strip_prefix,
}
use lucy.Text.Search.{strip_suffix, trim_end_matches}

-- no white space comes first
abbrev Trimmed : Text → Type 0
Trimmed [] = Unit
Trimmed (c ∷ s) = is_whitespace c ≡ false

trim_start-Trimmed : (s : Text) → Trimmed (trim_start s)
unfolding trim_start
trim_start-Trimmed [] = tt
trim_start-Trimmed (c ∷ s) = elim (Bool-cases (is_whitespace c)) [
  | inl e ↦ rw e (trim_start-Trimmed s)
  | inr e ↦ rw e e
]

trim_start_same : (s : Text) → Trimmed s → trim_start s ≡ s
unfolding trim_start
trim_start_same [] h = refl
trim_start_same (c ∷ s) h = rw h refl

trim_end-Trimmed : (s : Text) → Trimmed s → Trimmed (trim_end s)
unfolding trim_end
trim_end-Trimmed [] h = tt
trim_end-Trimmed (c ∷ s) h = rw h h

trim_end_idem : (s : Text) → trim_end (trim_end s) ≡ trim_end s
unfolding trim_end
trim_end_idem [] = refl
trim_end_idem (c ∷ s) = elim (Bool-cases (is_whitespace c && is_empty (trim_end s))) [
  | inl e ↦ rw e refl
  | inr e ↦ rw (e, trim_end_idem s, e) refl
]

pub trim_idem : (s : Text) → trim (trim s) ≡ trim s
unfolding trim
trim_idem s =
    ap trim_end (
      trim_start_same (trim_end (trim_start s))
        (trim_end-Trimmed (trim_start s) (trim_start-Trimmed s)))
    ∙ trim_end_idem (trim_start s)

pub trim_end_matches-avoid :
    (d : ℕ) (s : Text) → contains_char d s ≡ false → trim_end_matches d s ≡ s
unfolding trim_end_matches contains_char
trim_end_matches-avoid d [] h = refl
trim_end_matches-avoid d (c ∷ s) h = ground (arith, trim_end_matches-avoid d s)

length-trim_start : (s : Text) → length (trim_start s) ≤ length s
unfolding trim_start
length-trim_start [] = omega arith
length-trim_start (c ∷ s) = ground (arith, length-trim_start s)

length-trim_end : (s : Text) → length (trim_end s) ≤ length s
unfolding trim_end
length-trim_end [] = omega arith
length-trim_end (c ∷ s) = ground (arith, length-trim_end s)

pub length-trim : (s : Text) → length (trim s) ≤ length s
unfolding trim
length-trim s = omega (arith, length-trim_end (trim_start s), length-trim_start s)

pub length-trim_end_matches : (d : ℕ) (s : Text) → length (trim_end_matches d s) ≤ length s
unfolding trim_end_matches
length-trim_end_matches d [] = omega arith
length-trim_end_matches d (c ∷ s) = ground (arith, length-trim_end_matches d s)

pub length-strip_prefix : (p s r : Text) → strip_prefix p s ≡ some r → length r ≤ length s
unfolding strip_prefix
length-strip_prefix [] s r h = ground arith
length-strip_prefix (p ∷ ps) [] r h = ground arith
length-strip_prefix (p ∷ ps) (c ∷ s) r h = ground (arith, length-strip_prefix ps s r)

pub length-strip_suffix : (t s r : Text) → strip_suffix t s ≡ some r → length r ≤ length s
unfolding strip_suffix
length-strip_suffix t [] r h = ground arith
length-strip_suffix t (c ∷ s) [] h = omega arith
length-strip_suffix t (c ∷ s) (d ∷ r) h = ground (arith, length-strip_suffix t s r)

pub length-strip_prefix_lt :
    (p : ℕ) (ps s r : Text) → strip_prefix (p ∷ ps) s ≡ some r → length r < length s
unfolding strip_prefix
length-strip_prefix_lt p ps [] r h = ground arith
length-strip_prefix_lt p ps (c ∷ s) r h = ground (arith, length-strip_prefix ps s r)
