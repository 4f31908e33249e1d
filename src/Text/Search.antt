-- ===== src/Text/Search.antt =====
-- What `str` looks for at the end of a text, and what it takes out of one.
use lucy.Prelude.{ℕ, Bool, true, false, ◌&&◌, Option, none, some, [], ◌∷◌, ◌==◌, if◌then◌else◌}
use lucy.Text.{Text, text_eq, is_empty}

abbrev after_char : ℕ → Option Text → Option Text
after_char c none = none
after_char c (some s) = some (c ∷ s)

-- `strip_suffix(t)`
unfoldable pub strip_suffix : Text → Text → Option Text
strip_suffix t [] = if is_empty t then some [] else none
strip_suffix t (c ∷ s) =
    let rest = after_char c (strip_suffix t s) in if text_eq t (c ∷ s) then some [] else rest

abbrev is_found {ℓ} : {A : Type ℓ} → Option A → Bool
is_found none = false
is_found (some a) = true

unfoldable pub ends_with : Text → Text → Bool
unfolding strip_suffix
ends_with t s = is_found (strip_suffix t s)

-- `trim_end_matches(d)` at a character
unfoldable pub trim_end_matches : ℕ → Text → Text
trim_end_matches d [] = []
trim_end_matches d (c ∷ s) =
    let rest = trim_end_matches d s in if (c == d) && is_empty rest then [] else c ∷ rest

-- `replace("dd", "")`: the pairs of a character are taken out, from the left
unfoldable pub remove_pairs : ℕ → Text → Text
remove_pairs d [] = []
remove_pairs d (c ∷ []) = c ∷ []
remove_pairs d (c ∷ e ∷ s) =
    let rest = remove_pairs d s in
    let kept = remove_pairs d (e ∷ s) in if (c == d) && (e == d) then rest else c ∷ kept
