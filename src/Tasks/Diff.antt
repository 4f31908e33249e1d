-- ===== src/Tasks/Diff.antt =====
-- `compute_diff` of crates/lucy-tasks/src/watch.rs: the comparison of two texts of a watched page. The
-- two loops have fuel for each line of both texts.
pub mod Balance
use lucy.Prelude.{
  ℕ, zero, suc, ◌+◌, ◌*◌, Bool, true, false, ◌&&◌, List, [], ◌∷◌, ◌++◌, max, leb, ltb, ◌==◌, length,
  if◌then◌else◌,
}
use lucy.Text.{Text, text_eq, is_empty}
use lucy.Core.Truncate.{lines}

pub record PageDiff : Type 0 where
  pub added : List Text
  pub removed : List Text
  pub modified : List (Text × Text)

abbrev head_or_zero : List ℕ → ℕ
head_or_zero [] = 0
head_or_zero (n ∷ ns) = n

abbrev tail_row : List ℕ → List ℕ
tail_row [] = []
tail_row (n ∷ ns) = ns

abbrev head_row : List (List ℕ) → List ℕ
head_row [] = []
head_row (r ∷ rs) = r

abbrev zeros : List Text → List ℕ
zeros [] = 0 ∷ []
zeros (y ∷ ys) = 0 ∷ zeros ys

-- the row of a line, from the row below it
abbrev lcs_row : Text → List Text → List ℕ → List ℕ
lcs_row x [] below = 0 ∷ []
lcs_row x (y ∷ ys) below =
    let rest = lcs_row x ys (tail_row below) in
    (if text_eq x y
      then head_or_zero (tail_row below) + 1
      else max (head_or_zero below) (head_or_zero rest))
    ∷ rest

-- entry i j is for the lines from i on and from j on
unfoldable pub lcs_table : List Text → List Text → List (List ℕ)
lcs_table [] b = zeros b ∷ []
lcs_table (x ∷ a) b = let below = lcs_table a b in lcs_row x b (head_row below) ∷ below

abbrev nth_number : ℕ → List ℕ → ℕ
nth_number j [] = 0
nth_number zero (n ∷ ns) = n
nth_number (suc j) (n ∷ ns) = nth_number j ns

abbrev entry : List (List ℕ) → ℕ → ℕ → ℕ
entry [] i j = 0
entry (r ∷ rs) zero j = nth_number j r
entry (r ∷ rs) (suc i) j = entry rs i j

-- How the loop over both texts goes on.
pub data Move : Type 0 where
  same removes adds : Move

abbrev move : List (List ℕ) → ℕ → ℕ → Text → Text → Move
move lcs i j o n =
    if text_eq o n
    then same
    else if leb (entry lcs i (j + 1)) (entry lcs (i + 1) j)
    then removes
    else adds

abbrev old_step : Move → ℕ
old_step adds = 0
old_step m = 1

abbrev new_step : Move → ℕ
new_step removes = 0
new_step m = 1

abbrev old_after : Move → Text → List Text → List Text
old_after adds o os = o ∷ os
old_after m o os = os

abbrev new_after : Move → Text → List Text → List Text
new_after removes n ns = n ∷ ns
new_after m n ns = ns

-- the lines added and the lines removed
abbrev note_move : Move → Text → Text → List Text × List Text → List Text × List Text
note_move same o n (added, removed) = (added, removed)
note_move removes o n (added, removed) = (added, o ∷ removed)
note_move adds o n (added, removed) = (n ∷ added, removed)

unfoldable pub walk : ℕ → List (List ℕ) → ℕ → ℕ → List Text → List Text → List Text × List Text
walk fuel lcs i j [] new = (new, [])
walk fuel lcs i j (o ∷ os) [] = ([], o ∷ os)
walk zero lcs i j (o ∷ os) (n ∷ ns) = ([], [])
walk (suc fuel) lcs i j (o ∷ os) (n ∷ ns) =
    let m = move lcs i j o n in
    note_move m o n
      (walk fuel lcs (i + old_step m) (j + new_step m) (old_after m o os) (new_after m n ns))

-- the first use of a character, taken away
abbrev take_char : ℕ → Text → Text × ℕ
take_char c [] = ([], 0)
take_char c (d ∷ b) = let (rest, k) = take_char c b in if c == d then (b, 1) else (d ∷ rest, k)

abbrev common_chars : Text → Text → ℕ
common_chars [] b = 0
common_chars (c ∷ a) b = let (rest, k) = take_char c b in k + common_chars a rest

-- `line_similarity(a, b) > 0.5`, for lines of less than 2^53 characters
unfoldable pub is_similar : Text → Text → Bool
is_similar a b =
    if is_empty a && is_empty b
    then true
    else ltb (max (length a) (length b)) (2 * common_chars a b)

abbrev utf8_width : ℕ → ℕ
utf8_width c = if ltb c 0x80 then 1 else if ltb c 0x800 then 2 else if ltb c 0x10000 then 3 else 4

-- `str::len`
unfoldable pub byte_len : Text → ℕ
byte_len [] = 0
byte_len (c ∷ s) = utf8_width c + byte_len s

-- What the second loop does with the next line added and the next line removed.
abbrev pair_move : Text → Text → Move
pair_move a r =
    if is_similar r a then same else if ltb (byte_len r) (byte_len a) then adds else removes

abbrev note_pair : Move → Text → Text → PageDiff → PageDiff
note_pair same a r d = record d { modified = (r, a) ∷ d.modified }
note_pair adds a r d = record d { added = a ∷ d.added }
note_pair removes a r d = record d { removed = r ∷ d.removed }

unfoldable pub pair_up : ℕ → List Text → List Text → PageDiff
pair_up fuel [] removed = record { added = []; removed = removed; modified = [] }
pair_up fuel (a ∷ as_) [] = record { added = a ∷ as_; removed = []; modified = [] }
pair_up zero (a ∷ as_) (r ∷ rs) = record { added = []; removed = []; modified = [] }
pair_up (suc fuel) (a ∷ as_) (r ∷ rs) =
    let m = pair_move a r in note_pair m a r (pair_up fuel (new_after m a as_) (old_after m r rs))

abbrev pair_all : List Text × List Text → PageDiff
pair_all (added, removed) = pair_up (length added + length removed) added removed

unfoldable pub diff_lines : List Text → List Text → PageDiff
unfolding lcs_table walk pair_up
diff_lines old new = pair_all (walk (length old + length new) (lcs_table old new) 0 0 old new)

unfoldable pub compute_diff : Text → Text → PageDiff
unfolding diff_lines lines
compute_diff old new = diff_lines (lines old) (lines new)
