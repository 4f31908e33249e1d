-- ===== src/Spaces/Editor/Timeline.antt =====
-- Undo and redo as the moves of a timeline, and the operations of the editor in sequence.
pub mod Cases
pub mod Refines
pub mod Rewind
use lucy.Prelude.{
  ℕ, ◌≡◌, ◌⊎◌, false, Option, none, some, List, [], ◌∷◌, ◌++◌, ◌==◌, take, Result, ok, err, All,
}
use lucy.Text.{Text, codes, strip_prefix}
use lucy.Spaces.Editor.{
  MarkdownEditor, EditorMode, Direction, max_undo, insert, delete_backward, delete_forward,
  move_cursor, set_content, set_cursor, undo, redo,
}
use lucy.Spaces.Editor.Commands.{CommandError, slash_command}

-- nothing, or the end of a line and what follows
abbrev pub StartsLine : Text → Type 0
StartsLine [] = Unit
StartsLine (c ∷ s) = c ≡ 10

-- the contents before, now, and those undone; the nearest comes first
pub record Timeline : Type 0 where
  pub past : List Text
  pub present : Text
  pub future : List Text

abbrev pub view : MarkdownEditor → Timeline
view e = record { past = e.undo_stack; present = e.content; future = e.redo_stack }

-- a content that is a heading line and what follows it, or has no heading: a body behind a blank line
abbrev pub Titled : Text → Text → Text → Type 0
Titled content heading body =
    ((content ≡ codes "# " ++ (heading ++ body))
      × All (λ c. (c == 10) ≡ false) heading
      × StartsLine body)
    ⊎ ((strip_prefix (codes "# ") content ≡ none) × (body ≡ codes "\n\n" ++ content))

-- The moves of a timeline that keeps the nearest hundred contents of its past.
pub data Move : Timeline → Timeline → Type 0 where
  stays : (t : Timeline) → Move t t
  commits :
      (t : Timeline) (c : Text)
      → Move t (record { past = take max_undo (t.present ∷ t.past); present = c; future = [] })
  amends :
      (t : Timeline) (title heading body : Text)
      → Titled t.present heading body
      → Move t (record t { present = codes "# " ++ (title ++ body) })
  backs :
      (c : Text) (t : Timeline)
      → Move
          (record t { past = c ∷ t.past })
          (record t { present = c; future = t.present ∷ t.future })
  forths :
      (c : Text) (t : Timeline)
      → Move
          (record t { future = c ∷ t.future })
          (record t { past = t.present ∷ t.past; present = c })

pub data Moves : Timeline → Timeline → Type 0 where
  done : (t : Timeline) → Moves t t
  next : (s t u : Timeline) → Move s t → Moves t u → Moves s u

pub data Op : Type 0 where
  inserts sets_content commands : Text → Op
  deletes deletes_forward undoes redoes : Op
  moves : Direction → Op
  sets_cursor : ℕ → Op
  sets_mode : EditorMode → Op

-- a command that is refused changes nothing
abbrev pub or_same : MarkdownEditor → Result CommandError MarkdownEditor → MarkdownEditor
or_same e (ok e') = e'
or_same e (err x) = e

unfoldable pub apply : Op → MarkdownEditor → Option MarkdownEditor
apply (inserts text) e = insert text e
apply (sets_content text) e = some (set_content text e)
apply (commands text) e = some (or_same e (slash_command text e))
apply deletes e = delete_backward e
apply deletes_forward e = delete_forward e
apply undoes e = some (undo e)
apply redoes e = some (redo e)
apply (moves d) e = move_cursor d e
apply (sets_cursor n) e = some (set_cursor n e)
apply (sets_mode m) e = some (record e { mode = m })

abbrev pub and_then :
    (MarkdownEditor → Option MarkdownEditor) → Option MarkdownEditor → Option MarkdownEditor
and_then f none = none
and_then f (some e) = f e

unfoldable pub apply_all : List Op → MarkdownEditor → Option MarkdownEditor
unfolding apply
apply_all [] e = some e
apply_all (op ∷ ops) e = and_then (apply_all ops) (apply op e)
