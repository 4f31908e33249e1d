-- ===== src/Core/Truncate.antt =====
-- `truncate_str` and `truncate_tool_output` of crates/lucy-core/src/lib.rs. serde_json's `Value`
-- is a parameter, seen as a string, an object with its entries, or anything else.
pub mod Shape
use lucy.Prelude.{
  ℕ, ◌+◌, ◌-◌, ◌*◌, ◌/◌, Bool, true, false, ◌||◌, List, [], ◌∷◌, ◌++◌, map, leb, ltb, ◌==◌,
  if◌then◌else◌, length, take, drop,
}
use lucy.Text.{Text, codes, is_empty, split, join}
use lucy.Text.Decimal.{show_u32}

abbrev pub drop_cr : Text → Text
drop_cr [] = []
drop_cr (c ∷ []) = if c == 13 then [] else c ∷ []
drop_cr (c ∷ d ∷ s) = c ∷ drop_cr (d ∷ s)

-- the last piece has no end of line
abbrev pub end_lines : List Text → List Text
end_lines [] = []
end_lines (p ∷ []) = if is_empty p then [] else p ∷ []
end_lines (p ∷ q ∷ ps) = drop_cr p ∷ end_lines (q ∷ ps)

-- `str::lines`: a line ends with "\n" or "\r\n"; the last end of line is optional.
unfoldable pub lines : Text → List Text
lines s = end_lines (split 10 s)

abbrev pub head_count : ℕ → ℕ
head_count max_lines = max_lines * 60 / 100

abbrev pub tail_count : ℕ → ℕ
tail_count max_lines = max_lines - head_count max_lines

abbrev pub note : ℕ → Text
note dropped = codes "... [truncated " ++ (show_u32 dropped ++ codes " lines] ...")

unfoldable pub truncated : List Text → ℕ → List Text
truncated ls max_lines =
    take (head_count max_lines) ls
    ++ note (length ls - (head_count max_lines + tail_count max_lines))
      ∷ drop (length ls - tail_count max_lines) ls

unfoldable pub truncate_str : Text → ℕ → Text
unfolding lines truncated
truncate_str s max_lines =
    if leb (length (lines s)) max_lines || ltb max_lines 10
    then s
    else join (10 ∷ []) (truncated (lines s) max_lines)

pub data View (V : Type 0) : Type 0 where
  string_value : Text → View V
  object_value : List (Text × V) → View V
  other_value : View V

-- how a value is matched on, and how strings and objects are made
pub record Values (V : Type 0) : Type 0 where
  pub view : V → View V
  pub of_string : Text → V
  pub of_object : List (Text × V) → V

module _ {V : Type 0} (json : Values V) where
  abbrev shorten_string : ℕ → V → View V → V
  shorten_string max_lines v (string_value s) = json.of_string (truncate_str s max_lines)
  shorten_string max_lines v (object_value es) = v
  shorten_string max_lines v other_value = v

  abbrev pub shorten_entries : ℕ → List (Text × V) → List (Text × V)
  shorten_entries max_lines [] = []
  shorten_entries max_lines ((k, v) ∷ es) =
      (k, shorten_string max_lines v (json.view v)) ∷ shorten_entries max_lines es

  abbrev shorten_value : ℕ → V → View V → V
  shorten_value max_lines v (string_value s) = json.of_string (truncate_str s max_lines)
  shorten_value max_lines v (object_value es) = json.of_object (shorten_entries max_lines es)
  shorten_value max_lines v other_value = v

  unfoldable pub truncate_tool_output : V → ℕ → V
  unfolding truncate_str
  truncate_tool_output v max_lines = shorten_value max_lines v (json.view v)
