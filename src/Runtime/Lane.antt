-- ===== src/Runtime/Lane.antt =====
-- The fast lane of crates/lucy-runtime/src/fast_perception.rs: what its calls of tools are and how their
-- replies are read.
pub mod Anchor
pub mod Sites
pub mod Wait
pub mod Reply
pub mod Call
use lucy.Prelude.{
  ℕ, Bool, true, false, ◌||◌, Option, none, some, List, [], ◌∷◌, any, if◌then◌else◌, ◌==◌,
}
use lucy.Text.{Text, codes, text_eq, trim, is_empty, to_ascii_lowercase, contains_text, trim_start}
use lucy.Text.Search.{trim_end_matches}

pub data ActKind : Type 0 where
  click type_text press : ActKind

-- `ActKind::parse`
unfoldable pub parse_act : Text → ActKind
unfolding trim
parse_act raw =
    let s = to_ascii_lowercase (trim raw) in
    if text_eq s (codes "type")
    then type_text
    else if any (text_eq s) (codes "press" ∷ codes "key" ∷ codes "submit" ∷ codes "enter" ∷ [])
    then press
    else click

pub data VerifyOutcome : Type 0 where
  satisfied not_satisfied uncertain : VerifyOutcome

unfoldable pub is_settled : VerifyOutcome → Bool
is_settled uncertain = false
is_settled _ = true

-- `trim_start_matches(d)` at a character
abbrev trim_start_char : ℕ → Text → Text
trim_start_char d [] = []
trim_start_char d (c ∷ s) = let rest = trim_start_char d s in if c == d then rest else c ∷ s

-- `trim_matches('"')`
abbrev unquoted : Text → Text
unquoted s = trim_end_matches 34 (trim_start_char 34 s)

abbrev pub says_any : Text → List Text → Bool
says_any l words = any (λ w. contains_text w l) words

abbrev pub verdict_of_words : Text → VerifyOutcome
verdict_of_words l =
    if says_any l (codes "success" ∷ codes "true" ∷ codes "satisfied" ∷ [])
    then satisfied
    else if says_any l (codes "fail" ∷ codes "false" ∷ codes "not_satisfied" ∷ [])
    then not_satisfied
    else uncertain

-- `verdict_from_str`
unfoldable pub verdict_from_str : Text → VerifyOutcome
unfolding trim trim_end_matches contains_text
verdict_from_str v = verdict_of_words (to_ascii_lowercase (unquoted (trim v)))
