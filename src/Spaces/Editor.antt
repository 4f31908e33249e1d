-- ===== src/Spaces/Editor.antt =====
-- `MarkdownEditor` of crates/lucy-spaces/src/editor.rs. An operation that panics has no answer. The last
-- element of a stack comes first.
pub mod Commands
pub mod Timeline
pub mod Cursor
pub mod Safe
use lucy.Prelude.{
  ℕ, zero, suc, ◌+◌, ◌-◌, Bool, true, false, not, ◌||◌, ◌&&◌, Option, none, some, List, [], ◌∷◌,
  ◌++◌, take, min, leb, ltb, ◌==◌, if◌then◌else◌,
}
use lucy.Text.{Text, codes, is_empty}
use lucy.Text.Bytes.{byte_len, split_at, line_start, find_newline}

pub data EditorMode : Type 0 where
  normal insertion command : EditorMode

pub data Direction : Type 0 where
  up down left right : Direction

pub record MarkdownEditor : Type 0 where
  pub content : Text
  pub cursor : ℕ
  pub mode : EditorMode
  pub dirty : Bool
  pub undo_stack : List Text
  pub redo_stack : List Text
  pub title : Text
  pub tags : List Text
  pub pending_space : Option Text

abbrev pub new_editor : MarkdownEditor
new_editor = record {
  content = [];
  cursor = 0;
  mode = normal;
  dirty = false;
  undo_stack = [];
  redo_stack = [];
  title = [];
  tags = [];
  pending_space = none;
}

abbrev pub with_content : Text → MarkdownEditor
unfolding byte_len
with_content content = record new_editor { content = content; cursor = byte_len content }

abbrev pub max_undo : ℕ
max_undo = 100

-- `push_undo`, and the new content with the cursor; `redo_stack` is cleared
abbrev pub edit : Text → ℕ → MarkdownEditor → MarkdownEditor
edit content cursor e = record e {
  content = content;
  cursor = cursor;
  dirty = true;
  undo_stack = take max_undo (e.content ∷ e.undo_stack);
  redo_stack = [];
}

abbrev pub is_insertion : EditorMode → Bool
is_insertion insertion = true
is_insertion m = false

abbrev pub insert_between : Text → MarkdownEditor → Option (Text × Text) → Option MarkdownEditor
insert_between text e none = none
insert_between text e (some (a, b)) = some (edit (a ++ (text ++ b)) (e.cursor + byte_len text) e)

unfoldable pub insert : Text → MarkdownEditor → Option MarkdownEditor
unfolding byte_len
insert text e =
    if is_insertion e.mode then insert_between text e (split_at e.cursor e.content) else some e

-- `String::remove` at the offset, where the cursor is afterwards
abbrev pub remove_at : ℕ → MarkdownEditor → Option (Text × Text) → Option MarkdownEditor
remove_at n e none = none
remove_at n e (some (a, [])) = none
remove_at n e (some (a, c ∷ b)) = some (edit (a ++ b) n e)

unfoldable pub delete_backward : MarkdownEditor → Option MarkdownEditor
delete_backward e =
    if e.cursor == 0 then some e else remove_at (e.cursor - 1) e (split_at (e.cursor - 1) e.content)

unfoldable pub delete_forward : MarkdownEditor → Option MarkdownEditor
delete_forward e =
    if leb (byte_len e.content) e.cursor
    then some e
    else remove_at e.cursor e (split_at e.cursor e.content)

abbrev pub column_on : ℕ → ℕ → Option (Text × Text) → Option ℕ
column_on column line_end none = none
column_on column line_end (some (a, b)) = some (line_start a + min column (line_end - line_start a))

abbrev pub up_from : Text → ℕ → Option (Text × Text) → Option ℕ
up_from content cursor none = none
up_from content cursor (some (before, after)) =
    if line_start before == 0
    then some 0
    else column_on (cursor - line_start before) (line_start before - 1)
        (split_at (line_start before - 1) content)

unfoldable pub cursor_up : Text → ℕ → Option ℕ
cursor_up content cursor = up_from content cursor (split_at cursor content)

-- the end of the line that starts at the offset
abbrev pub line_end : Text → ℕ → Option ℕ → ℕ
line_end content start none = byte_len content
line_end content start (some n) = start + n

abbrev pub column_below : Text → ℕ → ℕ → Option (Text × Text) → Option ℕ
column_below content column start none = none
column_below content column start (some (a, b)) =
    some (start + min column (line_end content start (find_newline b) - start))

abbrev pub down_by : Text → ℕ → Text → Option ℕ → Option ℕ
down_by content cursor before none = some (byte_len content)
down_by content cursor before (some offset) =
    let start = cursor + offset + 1 in
    if leb (byte_len content) start
    then some (byte_len content)
    else column_below content (cursor - line_start before) start (split_at start content)

abbrev pub down_from : Text → ℕ → Option (Text × Text) → Option ℕ
down_from content cursor none = none
down_from content cursor (some (before, after)) = down_by content cursor before (find_newline after)

unfoldable pub cursor_down : Text → ℕ → Option ℕ
cursor_down content cursor = down_from content cursor (split_at cursor content)

abbrev pub at_cursor : MarkdownEditor → Option ℕ → Option MarkdownEditor
at_cursor e none = none
at_cursor e (some n) = some (record e { cursor = n })

unfoldable pub move_cursor : Direction → MarkdownEditor → Option MarkdownEditor
move_cursor left e = some (record e { cursor = e.cursor - 1 })
move_cursor right e =
    some
      (record e { cursor = if ltb e.cursor (byte_len e.content) then suc e.cursor else e.cursor })
move_cursor up e = at_cursor e (cursor_up e.content e.cursor)
move_cursor down e = at_cursor e (cursor_down e.content e.cursor)

unfoldable pub set_content : Text → MarkdownEditor → MarkdownEditor
set_content content e = edit content (byte_len content) e

unfoldable pub set_cursor : ℕ → MarkdownEditor → MarkdownEditor
set_cursor pos e = record e { cursor = min pos (byte_len e.content) }

abbrev pub undo_by : MarkdownEditor → List Text → MarkdownEditor
undo_by e [] = e
undo_by e (prev ∷ older) = record e {
  content = prev;
  cursor = min e.cursor (byte_len prev);
  dirty = true;
  undo_stack = older;
  redo_stack = e.content ∷ e.redo_stack;
}

unfoldable pub undo : MarkdownEditor → MarkdownEditor
undo e = undo_by e e.undo_stack

abbrev pub redo_by : MarkdownEditor → List Text → MarkdownEditor
redo_by e [] = e
redo_by e (next ∷ later) = record e {
  content = next;
  cursor = min e.cursor (byte_len next);
  dirty = true;
  undo_stack = e.content ∷ e.undo_stack;
  redo_stack = later;
}

unfoldable pub redo : MarkdownEditor → MarkdownEditor
redo e = redo_by e e.redo_stack
