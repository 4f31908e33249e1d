-- ===== src/Runtime/Agent/Probe.antt =====
-- `sanitize_probe` of crates/lucy-runtime/src/agent_loop.rs: which expression of the planner is evaluated
-- in the user's browser. `alnum` is `char::is_alphanumeric`, whose table is Unicode's.
pub mod Clean
pub mod Fuel
use lucy.Prelude.{
  ℕ, zero, suc, ◌*◌, Bool, true, false, not, ◌&&◌, ◌||◌, Option, none, some, List, [], ◌∷◌, map,
  any, keep, length, max, ltb, ◌==◌, if◌then◌else◌,
}
use lucy.Text.{
  Text, codes, text_eq, is_empty, trim, strip_prefix, starts_with, contains_text, contains_char,
  split_whitespace, to_ascii_lowercase,
}
use lucy.Text.Bytes.{byte_len}
use lucy.Text.Search.{strip_suffix, ends_with, trim_end_matches, remove_pairs}

-- `Option::or_else`
abbrev pub or_else : Option Text → Option Text → Option Text
or_else none o = o
or_else (some a) o = some a

abbrev pub and_then_strip : Option Text → (Text → Option Text) → Option Text
and_then_strip none f = none
and_then_strip (some a) f = f a

abbrev pub word_return : Text
word_return = codes "return"

abbrev again : (Text → Text) → Text → Option Text → Text
again k s none = s
again k s (some rest) = k rest

-- `trim_start_matches(p)`, with fuel for each time that `p` comes off
unfoldable pub trim_matches : ℕ → Text → Text → Text
unfolding strip_prefix
trim_matches zero p s = s
trim_matches (suc n) p s = again (trim_matches n p) s (strip_prefix p s)

unfoldable pub trim_start_matches : Text → Text → Text
unfolding trim_matches
trim_start_matches p s = trim_matches (length s) p s

abbrev pub opened : Text → Option Text
opened js =
    or_else (strip_prefix (codes "(() => {") js)
      (or_else (strip_prefix (codes "(()=>{") js) (strip_prefix (codes "(function(){") js))

abbrev pub closed : Text → Option Text
closed rest =
    or_else (strip_suffix (codes "})()") rest)
      (or_else (strip_suffix (codes "})();") rest) (strip_suffix (codes "})") rest))

abbrev pub body_text : Text → Text
body_text inner = trim (trim_end_matches 59 (trim (trim_start_matches word_return (trim inner))))

-- one expression and no more
abbrev pub single_body : Text → Option Text
single_body inner =
    if contains_text word_return inner || contains_char 59 inner || is_empty inner
    then none
    else some inner

abbrev pub body_of : Option Text → Option Text
body_of none = none
body_of (some inner) = single_body (body_text inner)

unfoldable pub probe_body : Text → Option Text
unfolding trim strip_prefix strip_suffix trim_end_matches trim_start_matches contains_text
    contains_char
probe_body js = body_of (and_then_strip (opened js) closed)

abbrev pub max_probe_bytes : ℕ
max_probe_bytes = 600

abbrev pub has_comment : Text → Bool
has_comment js =
    contains_text (codes "/*") js || contains_text (codes "*/") js || contains_text (codes "//") js

abbrev pub has_separator : Text → Bool
has_separator js = any (λ d. contains_char d js) (59 ∷ 10 ∷ 13 ∷ [])

-- a `|` or `&` that is left when "||" and "&&" are taken out
abbrev pub has_lone_operator : Text → Bool
has_lone_operator js =
    let logical = remove_pairs 38 (remove_pairs 124 js) in
    contains_char 124 logical || contains_char 38 logical

abbrev pub forbidden : List Text
forbidden =
    codes "fetch("
    ∷ codes "xmlhttprequest"
    ∷ codes "sendbeacon"
    ∷ codes "websocket"
    ∷ codes "import("
    ∷ codes "eval("
    ∷ codes "function("
    ∷ codes "localstorage"
    ∷ codes "sessionstorage"
    ∷ codes "document.cookie"
    ∷ codes "navigator.send"
    ∷ codes "postmessage"
    ∷ codes "open("
    ∷ codes "write("
    ∷ codes "writeln("
    ∷ codes "remove("
    ∷ codes "removechild"
    ∷ codes "replacechild"
    ∷ codes "appendchild"
    ∷ codes "insertbefore"
    ∷ codes "innerhtml"
    ∷ codes "outerhtml"
    ∷ codes "location.assign"
    ∷ codes "location.replace"
    ∷ codes "location.href="
    ∷ codes "location.hash="
    ∷ codes "window.open"
    ∷ codes "history.pushstate"
    ∷ codes "history.replacestate"
    ∷ codes "submit("
    ∷ codes "click()"
    ∷ codes "dispatchevent"
    ∷ codes "setattribute"
    ∷ codes "atob("
    ∷ codes "btoa("
    ∷ codes "new "
    ∷ codes "delete "
    ∷ codes "void "
    ∷ codes "globalthis"
    ∷ codes "top."
    ∷ codes "parent."
    ∷ codes "self."
    ∷ codes "process"
    ∷ codes "require("
    ∷ []

abbrev pub is_forbidden : Text → Bool
is_forbidden js = any (λ f. contains_text f (to_ascii_lowercase js)) forbidden

abbrev pub is_block : Text → Bool
is_block js = starts_with (codes "{") js || ends_with (codes "}") js

abbrev pub looks_like_javascript : Text → Bool
looks_like_javascript js =
    contains_char 46 js || contains_char 40 js || contains_char 91 js || contains_char 41 js

-- `chars().all(..)`
abbrev all_chars : (ℕ → Bool) → Text → Bool
all_chars p [] = true
all_chars p (c ∷ s) = if p c then all_chars p s else false

abbrev is_bare_word : (ℕ → Bool) → Text → Bool
is_bare_word alnum w = all_chars (λ c. alnum c || c == 39 || c == 34) w

abbrev pub is_prose : (ℕ → Bool) → Text → Bool
is_prose alnum js =
    let parts = split_whitespace js in
    ltb (max (length parts) 1) (length (keep (is_bare_word alnum) parts) * 2)
    && not (contains_char 40 js)
    && not (contains_char 46 js)

abbrev pub is_literal : Text → Bool
is_literal js =
    any (text_eq (to_ascii_lowercase js))
      (codes "null" ∷ codes "undefined" ∷ codes "true" ∷ codes "false" ∷ [])

-- the early returns of an expression that is no function
abbrev pub tests_of : (ℕ → Bool) → Text → List Bool
tests_of alnum js =
    is_empty js
    ∷ ltb max_probe_bytes (byte_len js)
    ∷ has_comment js
    ∷ has_separator js
    ∷ has_lone_operator js
    ∷ is_forbidden js
    ∷ is_block js
    ∷ not (looks_like_javascript js)
    ∷ is_prose alnum js
    ∷ is_literal js
    ∷ []

abbrev pub is_rejected : (ℕ → Bool) → Text → Bool
is_rejected alnum js = any (λ b. b) (tests_of alnum js)

unfoldable pub accept : (ℕ → Bool) → Text → Option Text
unfolding contains_text contains_char starts_with ends_with remove_pairs byte_len split_whitespace
accept alnum js = if is_rejected alnum js then none else some js

abbrev pub tidy : Text → Text
tidy raw = trim (trim_end_matches 59 (trim raw))

abbrev pub unwrapped :
    (ℕ → Bool) → (Text → Option (Option Text)) → Text → Option Text → Option (Option Text)
unwrapped alnum k js none = some (accept alnum js)
unwrapped alnum k js (some inner) = k inner

-- each function that is unwrapped takes fuel; `none` is no more fuel
unfoldable pub sanitize : (ℕ → Bool) → ℕ → Text → Option (Option Text)
unfolding trim trim_end_matches probe_body accept
sanitize alnum zero raw = none
sanitize alnum (suc n) raw = unwrapped alnum (sanitize alnum n) (tidy raw) (probe_body (tidy raw))

abbrev pub kept : Option (Option Text) → Option Text
kept none = none
kept (some r) = r

unfoldable pub sanitize_probe : (ℕ → Bool) → Text → Option Text
unfolding sanitize
sanitize_probe alnum raw = kept (sanitize alnum (suc (length raw)) raw)
