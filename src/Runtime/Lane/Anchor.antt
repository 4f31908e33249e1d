-- ===== src/Runtime/Lane/Anchor.antt =====
-- `anchor_to_visible_name` of crates/lucy-runtime/src/fast_perception.rs: which name on the screen an
-- instruction is about. `alnum` is `char::is_alphanumeric`, whose table is Unicode's.
pub mod Words
pub mod Best
use lucy.Prelude.{
  ℕ, ◌+◌, ◌*◌, Bool, true, false, not, ◌&&◌, ◌||◌, Option, none, some, List, [], ◌∷◌, ◌++◌, any,
  length, leb, ltb, ◌==◌, if◌then◌else◌,
}
use lucy.Text.{
  Text, codes, text_eq, is_empty, trim, trim_end, to_lowercase, contains_text, is_digit, cons_first,
}
use lucy.Text.Search.{strip_suffix}
use lucy.Runtime.Lane.Anchor.Words.{stopwords, generic_words}

abbrev pub max_hint_label : ℕ
max_hint_label = 4

abbrev pub min_anchor_name : ℕ
min_anchor_name = 3

abbrev pub min_anchor_word : ℕ
min_anchor_word = 3

abbrev is_ascii_alphanumeric : ℕ → Bool
is_ascii_alphanumeric c = is_digit c || leb 65 c && leb c 90 || leb 97 c && leb c 122

abbrev all_chars : (ℕ → Bool) → Text → Bool
all_chars p [] = true
all_chars p (c ∷ s) = if p c then all_chars p s else false

abbrev cons_head : ℕ → Option (Text × Text) → Option (Text × Text)
cons_head c none = none
cons_head c (some (a, b)) = some (c ∷ a, b)

abbrev or_here : Bool → Text → Option (Text × Text) → Option (Text × Text)
or_here here s (some p) = some p
or_here true s none = some ([], s)
or_here false s none = none

-- what stands before and after the last `d`, by `rfind`
unfoldable pub split_last : ℕ → Text → Option (Text × Text)
split_last d [] = none
split_last d (c ∷ s) = or_here (c == d) s (cons_head c (split_last d s))

abbrev not_label : Text → Bool
not_label label =
    is_empty label
    || ltb max_hint_label (length label)
    || not (all_chars is_ascii_alphanumeric label)

abbrev without_label : Text → Option (Text × Text) → Text
without_label entry none = entry
without_label entry (some (head, label)) = if not_label label then entry else trim_end head

abbrev within_parens : Text → Option Text → Text
within_parens entry none = entry
within_parens entry (some head) = without_label entry (split_last 40 head)

unfoldable pub strip_hint_label : Text → Text
unfolding trim trim_end strip_suffix split_last is_digit
strip_hint_label entry = within_parens (trim entry) (strip_suffix (codes ")") (trim entry))

unfoldable pub name_carries_word : Text → Text → Bool
unfolding contains_text
name_carries_word name word =
    contains_text word name || contains_text name word && leb (length word) (length name * 2)

-- `split(|c| !c.is_alphanumeric())`
abbrev tokens : (ℕ → Bool) → Text → List Text
tokens alnum [] = [] ∷ []
tokens alnum (c ∷ s) = let rest = tokens alnum s in if alnum c then cons_first c rest else [] ∷ rest

abbrev pub is_in : Text → List Text → Bool
is_in w ws = any (text_eq w) ws

abbrev add_word : Text → List Text → List Text
add_word w ws =
    if ltb (length w) min_anchor_word || is_in w stopwords
    then ws
    else if is_in w ws
    then ws
    else ws ++ (w ∷ [])

abbrev gather : List Text → List Text → List Text
gather [] ws = ws
gather (t ∷ ts) ws = gather ts (add_word (to_lowercase t) ws)

unfoldable pub anchor_content_words : (ℕ → Bool) → Text → List Text
unfolding to_lowercase
anchor_content_words alnum instruction = gather (tokens alnum instruction) []

-- the characters of the instruction's words that the name carries
abbrev pub score_of : Text → List Text → ℕ
score_of hay [] = 0
score_of hay (w ∷ ws) =
    let rest = score_of hay ws in if name_carries_word hay w then length w + rest else rest

abbrev pub is_specific : Text → List Text → Bool
is_specific hay words = any (λ w. name_carries_word hay w && not (is_in w generic_words)) words

-- the score of an entry that can be an anchor
unfoldable pub candidate : List Text → Text → Option (ℕ × Text)
unfolding strip_hint_label to_lowercase name_carries_word
candidate words entry =
    let name = strip_hint_label entry in
    let hay = to_lowercase name in
    if ltb (length name) min_anchor_name || is_in hay words
    then none
    else if score_of hay words == 0 || not (is_specific hay words)
    then none
    else some (score_of hay words, name)

-- the earlier of two with the same score stays
abbrev pub better : Option (ℕ × Text) → Option (ℕ × Text) → Option (ℕ × Text)
better best none = best
better none (some c) = some c
better (some b) (some c) = if ltb b.0 c.0 then some c else some b

abbrev pub best_of : List Text → Option (ℕ × Text) → List Text → Option (ℕ × Text)
best_of words best [] = best
best_of words best (entry ∷ more) = best_of words (better best (candidate words entry)) more

abbrev pub name_of : Option (ℕ × Text) → Option Text
name_of none = none
name_of (some (score, name)) = some name

unfoldable pub anchor_to_visible_name : (ℕ → Bool) → Text → List Text → Option Text
unfolding anchor_content_words candidate
anchor_to_visible_name alnum instruction described =
    let words = anchor_content_words alnum instruction in
    elim words [ [] ↦ none | w ∷ ws ↦ name_of (best_of (w ∷ ws) none described) ]
