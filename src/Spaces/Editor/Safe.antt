-- ===== src/Spaces/Editor/Safe.antt =====
-- The editor on texts of ASCII, as long as no command sets the title.
use lucy.Prelude.{
  ℕ, zero, suc, ◌+◌, ◌-◌, ◌≤◌, ◌<◌, ◌≡◌, false, Option, none, some, List, [], ◌∷◌, ◌++◌, All, take,
  drop, length, arith, Bool-cases, inl, inr, ◌==◌, leb, ltb, leb-false→lt, ltb→lt, length-take,
  length-drop, length-append,
}
use lucy.Text.{Text, codes, text_eq, split_once}
use lucy.Text.Laws.{All-append}
use lucy.Text.Bytes.{byte_len, split_at}
use lucy.Text.Bytes.Ascii.{Ascii, byte_len-Ascii, split_at-Ascii, Ascii-take, Ascii-drop}
use lucy.Spaces.Editor.{
  MarkdownEditor, Direction, edit, max_undo, insert, insert_between, is_insertion, delete_backward,
  delete_forward, remove_at, move_cursor, at_cursor, cursor_up, cursor_down, set_content,
  set_cursor, undo, undo_by, redo, redo_by, up, down, left, right,
}
use lucy.Spaces.Editor.Commands.{slash, untitled, command_of, slash_command}
use lucy.Spaces.Editor.Cursor.{Within, cursor_up-Within, cursor_down-Within}
use lucy.Spaces.Editor.Timeline.Cases.{untitled-outcome}
use lucy.Spaces.Editor.Timeline.{
  Op, inserts, sets_content, commands, deletes, deletes_forward, undoes, redoes, moves, sets_cursor,
  sets_mode, or_same, apply, and_then, apply_all,
}

-- every content kept is of ASCII, and the cursor is within the present one
abbrev pub InBounds : MarkdownEditor → Type 0
InBounds e =
    Ascii e.content
    × (e.cursor ≤ length e.content)
    × All Ascii e.undo_stack
    × All Ascii e.redo_stack

abbrev pub Lives : Option MarkdownEditor → Type 0
Lives none = ⊥
Lives (some e) = InBounds e

-- the command is not the title's
abbrev pub IsPlain : Op → Type 0
IsPlain (inserts text) = Ascii text
IsPlain (sets_content text) = Ascii text
IsPlain (commands text) = text_eq (command_of text (split_once 32 text)).0 (codes "title") ≡ false
IsPlain op = Unit

All-take : (n : ℕ) (xs : List Text) → All Ascii xs → All Ascii (take n xs)
All-take zero xs h = tt
All-take (suc n) [] h = tt
All-take (suc n) (x ∷ xs) h = (h.0, All-take n xs h.1)

edit-InBounds :
    (content : Text) (n : ℕ) (e : MarkdownEditor)
    → Ascii content
    → n ≤ length content
    → InBounds e
    → InBounds (edit content n e)
edit-InBounds content n e h l i =
    (h, l, All-take max_undo (e.content ∷ e.undo_stack) (i.0, i.2), tt)

insert_between-Lives :
    (text : Text) (e : MarkdownEditor)
    → Ascii text
    → InBounds e
    → Lives (insert_between text e (split_at e.cursor e.content))
insert_between-Lives text e h i =
    let a = take e.cursor e.content in
    let b = drop e.cursor e.content in
    rw (split_at-Ascii e.cursor e.content i.0 i.1) (
      edit-InBounds (a ++ (text ++ b)) (e.cursor + byte_len text) e
        (All-append _ a (text ++ b) (Ascii-take e.cursor e.content i.0)
          (All-append _ text b h (Ascii-drop e.cursor e.content i.0)))
        (omega (
          arith,
          i.1,
          byte_len-Ascii text h,
          length-append a (text ++ b),
          length-append text b,
          length-take e.cursor e.content,
          length-drop e.cursor e.content,
        ))
        i)

removed-Lives :
    (n : ℕ) (e : MarkdownEditor) (a b : Text)
    → Ascii a
    → Ascii b
    → length a ≡ n
    → 0 < length b
    → InBounds e
    → Lives (remove_at n e (some (a, b)))
removed-Lives n e a [] h k l p i = absurd (omega arith)
removed-Lives n e a (c ∷ b) h k l p i =
    edit-InBounds (a ++ b) n e (All-append _ a b h k.1) (omega (arith, l, length-append a b)) i

remove_at-Lives :
    (n : ℕ) (e : MarkdownEditor)
    → n < length e.content
    → InBounds e
    → Lives (remove_at n e (split_at n e.content))
remove_at-Lives n e l i = rw (split_at-Ascii n e.content i.0 (omega (arith, l))) (
    removed-Lives n e (take n e.content) (drop n e.content) (Ascii-take n e.content i.0)
      (Ascii-drop n e.content i.0) (omega (arith, l, length-take n e.content))
      (omega (arith, l, length-drop n e.content)) i)

at_cursor-Lives :
    (e : MarkdownEditor) (o : Option ℕ) → Within e.content o → InBounds e → Lives (at_cursor e o)
at_cursor-Lives e none w i = absurd w
at_cursor-Lives e (some n) w i = (i.0, w, i.2, i.3)

move_cursor-Lives : (d : Direction) (e : MarkdownEditor) → InBounds e → Lives (move_cursor d e)
unfolding move_cursor
move_cursor-Lives left e i = (i.0, omega (arith, i.1), i.2, i.3)
move_cursor-Lives right e i = elim (Bool-cases (ltb e.cursor (byte_len e.content))) [
  | inl h ↦ rw h (
    i.0,
    omega (arith, ltb→lt e.cursor (byte_len e.content) h, byte_len-Ascii e.content i.0),
    i.2,
    i.3,
  )
  | inr h ↦ rw h i
]
move_cursor-Lives up e i =
    at_cursor-Lives e (cursor_up e.content e.cursor) (cursor_up-Within e.content e.cursor i.0 i.1) i
move_cursor-Lives down e i =
    at_cursor-Lives e (cursor_down e.content e.cursor)
      (cursor_down-Within e.content e.cursor i.0 i.1) i

undo_by-InBounds :
    (e : MarkdownEditor) (s : List Text) → All Ascii s → InBounds e → InBounds (undo_by e s)
undo_by-InBounds e [] h i = i
undo_by-InBounds e (c ∷ older) h i = (h.0, omega (arith, byte_len-Ascii c h.0), h.1, (i.0, i.3))

redo_by-InBounds :
    (e : MarkdownEditor) (s : List Text) → All Ascii s → InBounds e → InBounds (redo_by e s)
redo_by-InBounds e [] h i = i
redo_by-InBounds e (c ∷ later) h i = (h.0, omega (arith, byte_len-Ascii c h.0), (i.0, i.2), h.1)

untitled-InBounds :
    (cmd args : Text) (e : MarkdownEditor) → InBounds e → InBounds (or_same e (untitled cmd args e))
untitled-InBounds cmd args e i =
    untitled-outcome InBounds cmd args e i i i
      (tt, omega arith, All-take max_undo (e.content ∷ e.undo_stack) (i.0, i.2), tt) i

slash-InBounds :
    (cmd args : Text) (e : MarkdownEditor)
    → text_eq cmd (codes "title") ≡ false
    → InBounds e
    → InBounds (or_same e (slash cmd args e))
slash-InBounds cmd args e h i = rw h (untitled-InBounds cmd args e i)

apply-Lives : (op : Op) (e : MarkdownEditor) → IsPlain op → InBounds e → Lives (apply op e)
unfolding apply slash_command insert delete_backward delete_forward set_content set_cursor undo redo
apply-Lives (inserts text) e p i = elim (Bool-cases (is_insertion e.mode)) [
  | inl h ↦ rw h (insert_between-Lives text e p i)
  | inr h ↦ rw h i
]
apply-Lives (sets_content text) e p i =
    edit-InBounds text (byte_len text) e p (omega (arith, byte_len-Ascii text p)) i
apply-Lives (commands text) e p i =
    let c = command_of text (split_once 32 text) in slash-InBounds c.0 c.1 e p i
apply-Lives deletes e p i = elim (Bool-cases (e.cursor == 0)) [
  | inl h ↦ rw h i
  | inr h ↦ rw h (remove_at-Lives (e.cursor - 1) e (ground (arith, h, i.1)) i)
]
apply-Lives deletes_forward e p i = elim (Bool-cases (leb (byte_len e.content) e.cursor)) [
  | inl h ↦ rw h i
  | inr h ↦ rw h (
      remove_at-Lives e.cursor e
        (omega (arith, leb-false→lt (byte_len e.content) e.cursor h, byte_len-Ascii e.content i.0))
        i)
]
apply-Lives undoes e p i = undo_by-InBounds e e.undo_stack i.2 i
apply-Lives redoes e p i = redo_by-InBounds e e.redo_stack i.3 i
apply-Lives (moves d) e p i = move_cursor-Lives d e i
apply-Lives (sets_cursor n) e p i = (i.0, omega (arith, byte_len-Ascii e.content i.0), i.2, i.3)
apply-Lives (sets_mode m) e p i = i

and_then-Lives :
    (f : MarkdownEditor → Option MarkdownEditor) (o : Option MarkdownEditor)
    → ((e : MarkdownEditor) → InBounds e → Lives (f e))
    → Lives o
    → Lives (and_then f o)
and_then-Lives f none h l = l
and_then-Lives f (some e) h l = h e l

-- From an editor whose contents are of ASCII and whose cursor is within the content, no run of operations
-- panics, and it ends in such an editor, where the texts that are put in are of ASCII and no command is
-- the title's.
pub apply_all-Lives :
    (ops : List Op) (e : MarkdownEditor) → All IsPlain ops → InBounds e → Lives (apply_all ops e)
unfolding apply_all
apply_all-Lives [] e p i = i
apply_all-Lives (op ∷ ops) e p i =
    and_then-Lives (apply_all ops) (apply op e) (λ d j. apply_all-Lives ops d p.1 j)
      (apply-Lives op e p.0 i)
