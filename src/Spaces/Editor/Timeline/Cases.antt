-- ===== src/Spaces/Editor/Timeline/Cases.antt =====
-- What a slash command other than the title's does to the editor.
use lucy.Prelude.{false, some, [], Bool-cases, inl, inr}
use lucy.Text.{Text, codes, text_eq, is_empty}
use lucy.Spaces.Editor.{MarkdownEditor, edit}
use lucy.Spaces.Editor.Commands.{add_tag, untitled}
use lucy.Spaces.Editor.Timeline.{or_same}

-- what holds of each of its outcomes holds of it
pub untitled-outcome :
    (P : MarkdownEditor → Type 0) (cmd args : Text) (e : MarkdownEditor)
    → P e
    → P (record e { tags = add_tag args e.tags })
    → P (record e { dirty = false })
    → P (edit [] 0 e)
    → P (record e { pending_space = some args })
    → P (or_same e (untitled cmd args e))
untitled-outcome P cmd args e same tagged saved deleted moved =
    elim (Bool-cases (text_eq cmd (codes "tag"))) [
      | inl h ↦ elim (Bool-cases (is_empty args)) [
        | inl k ↦ rw (h, k) same
        | inr k ↦ rw (h, k) tagged
      ]
      | inr h ↦ rw h (elim (Bool-cases (text_eq cmd (codes "save"))) [
        | inl k ↦ rw k saved
        | inr k ↦ rw k (elim (Bool-cases (text_eq cmd (codes "delete"))) [
          | inl l ↦ rw l deleted
          | inr l ↦ rw l (elim (Bool-cases (text_eq cmd (codes "move"))) [
            | inl m ↦ elim (Bool-cases (is_empty args)) [
              | inl n ↦ rw (m, n) same
              | inr n ↦ rw (m, n) moved
            ]
            | inr m ↦ rw m same
          ])
        ])
      ])
    ]
