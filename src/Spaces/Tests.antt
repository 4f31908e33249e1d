-- ===== src/Spaces/Tests.antt =====
-- The editor at concrete inputs.
use lucy.Prelude.{ℕ, arith, ◌≡◌, refl, true, none, List, [], ◌∷◌}
use lucy.Text.{Text, codes, strip_prefix, split_once}
use lucy.Text.Bytes.{byte_len, split_at}
use lucy.Spaces.Editor.{
  MarkdownEditor, new_editor, insertion, up, delete_backward, insert, set_content,
}
use lucy.Spaces.Editor.Commands.{slash_command}
use lucy.Spaces.Editor.Timeline.{
  Op, inserts, sets_content, commands, deletes, undoes, moves, sets_mode, apply_all,
}
use lucy.Spaces.Editor.Safe.{Lives, apply_all-Lives}

abbrev writing : List Op
writing =
    sets_mode insertion
    ∷ inserts (codes "ab\ncd")
    ∷ moves up
    ∷ deletes
    ∷ undoes
    ∷ commands (codes "tag x")
    ∷ []

abbrev written : MarkdownEditor
written = record new_editor {
  content = codes "ab\ncd";
  cursor = 1;
  mode = insertion;
  dirty = true;
  undo_stack = [] ∷ [];
  redo_stack = codes "a\ncd" ∷ [];
  tags = codes "x" ∷ [];
}

apply_all-Lives_example : Lives (apply_all writing new_editor)
unfolding split_once
apply_all-Lives_example =
    apply_all-Lives writing new_editor (tt, (ground arith, (tt, (tt, (tt, (refl, tt))))))
      (tt, omega arith, tt, tt)

abbrev drafts : List (Text × ℕ)
drafts = (codes "a", 1) ∷ (codes "ab", 2) ∷ []

-- A title that shortens the content leaves the cursor behind its end, and the next insertion panics.
shortened_by_title :
    apply_all
      (sets_mode insertion
        ∷ sets_content (codes "# A long title")
        ∷ commands (codes "title T")
        ∷ inserts (codes "x")
        ∷ [])
      new_editor
    ≡ none
unfolding apply_all insert slash_command set_content split_at strip_prefix
shortened_by_title = refl

-- Deleting a character that takes two bytes panics.
two_bytes : apply_all (sets_content (0xE9 ∷ []) ∷ deletes ∷ []) new_editor ≡ none
unfolding apply_all delete_backward set_content byte_len split_at
two_bytes = refl
