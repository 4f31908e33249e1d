-- ===== src/Knowledge/Slugs.antt =====
-- The text helpers of crates/lucy-knowledge/src/store.rs.
use lucy.Prelude.{
  ℕ, Bool, true, false, ◌&&◌, ◌||◌, not, List, [], ◌∷◌, ◌++◌, map, any, keep, take, length, leb,
  ◌==◌, if◌then◌else◌,
}
use lucy.Text.{
  Text, codes, text_eq, trim, is_digit, split_whitespace, join, cons_first, to_ascii_lowercase,
  contains_text,
}

unfoldable pub normalize : Text → Text
normalize text = join (codes " ") (split_whitespace text)

abbrev pub is_ascii_alphanumeric : ℕ → Bool
is_ascii_alphanumeric c = is_digit c || leb 65 c && leb c 90 || leb 97 c && leb c 122

abbrev pub dash : ℕ
dash = 45

abbrev is_separator : ℕ → Bool
is_separator c = any (λ d. c == d) (codes "/\\ _.-")

-- what a character adds: itself, a dash, or nothing
abbrev slug_char : Bool → Bool → ℕ → Bool → (Bool → Text) → Text
slug_char true cuts c last_dash rest = c ∷ rest false
slug_char false true c last_dash rest = dash ∷ rest true
slug_char false false c last_dash rest = rest last_dash

-- the characters that are kept; `last_dash` is whether the last one written is a dash
abbrev slug_chars : Bool → Text → Text
slug_chars last_dash [] = []
slug_chars last_dash (c ∷ s) =
    slug_char (is_ascii_alphanumeric c) (is_separator c && not last_dash) c last_dash
      (λ b. slug_chars b s)

abbrev trim_dash_start : Text → Text
trim_dash_start [] = []
trim_dash_start (c ∷ s) = let rest = trim_dash_start s in if c == dash then rest else c ∷ s

abbrev trim_dash_end : Text → Text
trim_dash_end [] = []
trim_dash_end (c ∷ s) =
    let rest = trim_dash_end s in if c == dash && leb (length rest) 0 then [] else c ∷ rest

unfoldable pub slugify : Text → Text
unfolding trim
slugify raw =
    take 64 (trim_dash_end (trim_dash_start (slug_chars true (to_ascii_lowercase (trim raw)))))

abbrev secret_words : List Text
secret_words =
    codes "api key"
    ∷ codes "apikey"
    ∷ codes "password"
    ∷ codes "secret"
    ∷ codes "private key"
    ∷ codes "access token"
    ∷ codes "bearer token"
    ∷ codes "refresh token"
    ∷ codes "seed phrase"
    ∷ []

unfoldable pub looks_secret : Text → Bool
looks_secret text = any (λ needle. contains_text needle (to_ascii_lowercase text)) secret_words

abbrev is_term : ℕ → Bool
is_term c = is_ascii_alphanumeric c || c == 95

abbrev split_terms : Text → List Text
split_terms [] = [] ∷ []
split_terms (c ∷ s) = let rest = split_terms s in if is_term c then cons_first c rest else [] ∷ rest

-- the first of each
abbrev distinct : List Text → List Text
distinct [] = []
distinct (t ∷ ts) = t ∷ keep (λ u. not (text_eq t u)) (distinct ts)

unfoldable pub fts_query : Text → Text
fts_query raw =
    let terms = map to_ascii_lowercase (keep (λ t. leb 2 (length t)) (split_terms raw)) in
    join (codes " OR ") (map (λ t. codes "\"" ++ (t ++ codes "\"")) (distinct terms))
