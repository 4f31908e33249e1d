-- ===== src/Spaces/Editor/Timeline/Refines.antt =====
-- Every operation of the editor that does not panic is a move of the timeline.
use lucy.Prelude.{Option, none, some, [], ◌∷◌, ◌==◌, if◌then◌else◌}
use lucy.Text.{Text}
use lucy.Spaces.Editor.{MarkdownEditor}
use lucy.Spaces.Editor.Timeline.{view, Move}

-- the answer, where there is one, is a move away
abbrev Moved : MarkdownEditor → Option MarkdownEditor → Type 0
Moved e none = Unit
Moved e (some e') = Move (view e) (view e')

-- the line of a heading and what follows it
before_newline : Text → Text
before_newline [] = []
before_newline (c ∷ s) = let rest = before_newline s in if c == 10 then [] else c ∷ rest
