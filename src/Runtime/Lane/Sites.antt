-- ===== src/Runtime/Lane/Sites.antt =====
-- The destination that a goal names, of crates/lucy-runtime/src/fast_perception.rs.
use lucy.Prelude.{
  ℕ, Bool, true, ◌&&◌, ◌||◌, Option, none, some, List, [], ◌∷◌, any, map, keep, not, ◌==◌,
  if◌then◌else◌,
}
use lucy.Text.{
  Text, codes, is_empty, is_whitespace, trim, to_lowercase, to_ascii_lowercase, strip_prefix,
  starts_with, contains_text, split_once,
}
use lucy.Runtime.Json.{or_else}

-- from where the text first stands: `&s[find(p)..]`
unfoldable pub tail_at : Text → Text → Option Text
unfolding starts_with
tail_at p [] = if starts_with p [] then some [] else none
tail_at p (c ∷ s) = let rest = tail_at p s in if starts_with p (c ∷ s) then some (c ∷ s) else rest

-- up to the first character that `p` holds of
abbrev pub until_char : (ℕ → Bool) → Text → Text
until_char p [] = []
until_char p (c ∷ s) = let rest = until_char p s in if p c then [] else c ∷ rest

abbrev trim_end_chars : (ℕ → Bool) → Text → Text
trim_end_chars p [] = []
trim_end_chars p (c ∷ s) =
    let rest = trim_end_chars p s in if p c && is_empty rest then [] else c ∷ rest

abbrev ends_url : ℕ → Bool
ends_url c = is_whitespace c || c == 34 || c == 39

abbrev is_trailing : ℕ → Bool
is_trailing c = c == 46 || c == 44 || c == 41

abbrev url_from : Option Text → Option Text
url_from none = none
url_from (some tail) =
    let url = trim_end_chars is_trailing (until_char ends_url tail) in
    if is_empty url then none else some url

unfoldable pub site_url_for_goal : Text → Option Text
unfolding trim to_lowercase tail_at is_whitespace
site_url_for_goal goal =
    let g = to_lowercase (trim goal) in
    url_from (or_else (tail_at (codes "https://") g) (tail_at (codes "http://") g))

abbrev structural : List Text
structural =
    codes "http://"
    ∷ codes "https://"
    ∷ codes ".com"
    ∷ codes ".org"
    ∷ codes ".net"
    ∷ codes ".io"
    ∷ codes "browser"
    ∷ codes "browse"
    ∷ codes "web"
    ∷ codes "website"
    ∷ codes "search on"
    ∷ codes "search for"
    ∷ []

unfoldable pub goal_needs_browser : Text → List Text → Bool
unfolding trim to_lowercase contains_text
goal_needs_browser goal keywords =
    let low = to_lowercase goal in
    if any (λ needle. contains_text needle low) structural
    then true
    else any (λ k. contains_text k low)
        (keep (λ k. not (is_empty k)) (map (λ k. to_lowercase (trim k)) keywords))

abbrev colon_slashes : Text
colon_slashes = codes "://"

abbrev or_whole : Text → Option Text → Text
or_whole s none = s
or_whole s (some r) = r

-- what comes before the text, or all of it
unfoldable pub before_text : Text → Text → Text
unfolding starts_with
before_text p [] = []
before_text p (c ∷ s) = let rest = before_text p s in if starts_with p (c ∷ s) then [] else c ∷ rest

abbrev after_text : Text → Option Text → Option Text
after_text p none = none
after_text p (some tail) = strip_prefix p tail

-- `split("://").nth(1)`
abbrev second_part : Text → Option Text
second_part s = elim (after_text colon_slashes (tail_at colon_slashes s)) [
  | none ↦ none
  | some r ↦ some (before_text colon_slashes r)
]

abbrev ends_host : ℕ → Bool
ends_host c = c == 47 || c == 63 || c == 35

-- `rsplit(d).next()`: what comes after the last one
abbrev after_last_of : ℕ → Text → Text → Text
after_last_of d [] acc = acc
after_last_of d (c ∷ s) acc = if c == d then after_last_of d s s else after_last_of d s acc

abbrev pub after_last : ℕ → Text → Text
after_last d s = after_last_of d s s

abbrev before_colon : Text → Option (Text × Text) → Text
before_colon s none = s
before_colon s (some (h, port)) = h

unfoldable pub host_of_url : Text → Text
unfolding trim tail_at before_text strip_prefix split_once
host_of_url url =
    let u = trim url in
    let rest =
      to_ascii_lowercase (after_last 64 (until_char ends_host (or_whole u (second_part u)))) in
    let host = or_whole rest (strip_prefix (codes "www.") rest) in
    before_colon host (split_once 58 host)
