-- ===== src/Text/Bytes.antt =====
-- A Rust string seen by its byte offsets: a text is its code points, and each takes as many bytes as
-- UTF-8 gives it. An offset that is no boundary of a character has no answer, where Rust panics.
pub mod Ascii
use lucy.Prelude.{
  ℕ, zero, suc, ◌+◌, ◌-◌, Bool, true, false, Option, none, some, List, [], ◌∷◌, ◌==◌, leb, ltb,
  if◌then◌else◌,
}
use lucy.Text.{Text}

abbrev pub utf8_len : ℕ → ℕ
utf8_len c = if ltb c 0x80 then 1 else if ltb c 0x800 then 2 else if ltb c 0x10000 then 3 else 4

unfoldable pub byte_len : Text → ℕ
byte_len [] = 0
byte_len (c ∷ s) = utf8_len c + byte_len s

abbrev pub cons_left : ℕ → Option (Text × Text) → Option (Text × Text)
cons_left c none = none
cons_left c (some (a, b)) = some (c ∷ a, b)

-- `&s[..n]` and `&s[n..]`
unfoldable pub split_at : ℕ → Text → Option (Text × Text)
split_at zero s = some ([], s)
split_at (suc n) [] = none
split_at (suc n) (c ∷ s) =
    let rest = cons_left c (split_at (suc n - utf8_len c) s) in
    if leb (utf8_len c) (suc n) then rest else none

-- the offset behind the last line feed, 0 where there is none
unfoldable pub line_start : Text → ℕ
line_start [] = 0
line_start (c ∷ s) =
    let rest = line_start s in if ltb 0 rest then utf8_len c + rest else if c == 10 then 1 else 0

abbrev behind : ℕ → Option ℕ → Option ℕ
behind w none = none
behind w (some n) = some (w + n)

-- `find('\n')`
unfoldable pub find_newline : Text → Option ℕ
find_newline [] = none
find_newline (c ∷ s) =
    let rest = behind (utf8_len c) (find_newline s) in if c == 10 then some 0 else rest
