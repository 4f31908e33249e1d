-- ===== src/Spaces/Editor/Commands.antt =====
-- The slash commands and the rendering of the editor.
use lucy.Prelude.{
  Bool, true, false, not, ◌&&◌, Option, none, some, List, [], ◌∷◌, ◌++◌, any, ◌==◌, if◌then◌else◌,
  Result, ok, err,
}
use lucy.Text.{Text, codes, text_eq, trim, is_empty, split_once, strip_prefix}
use lucy.Spaces.Editor.{MarkdownEditor, edit}

pub data CommandError : Type 0 where
  missing_title missing_tag missing_space : CommandError
  unknown_command : Text → CommandError

-- from the first line feed on, empty where there is none
abbrev pub from_newline : Text → Text
from_newline [] = []
from_newline (c ∷ s) = let rest = from_newline s in if c == 10 then c ∷ s else rest

abbrev pub retitled : Text → Text → Option Text → Text
retitled title content none = codes "# " ++ (title ++ (codes "\n\n" ++ content))
retitled title content (some rest) = codes "# " ++ (title ++ from_newline rest)

-- `set_title_heading`
unfoldable pub set_title_heading : Text → MarkdownEditor → MarkdownEditor
set_title_heading title e = record e {
  content = retitled title e.content (strip_prefix (codes "# ") e.content);
  dirty = true;
}

abbrev pub command_of : Text → Option (Text × Text) → Text × Text
command_of command none = (command, [])
command_of command (some (c, a)) = (c, trim a)

abbrev pub add_tag : Text → List Text → List Text
add_tag name tags = if any (λ t. text_eq t name) tags then tags else tags ++ name ∷ []

abbrev is_none : Option Text → Bool
is_none none = true
is_none (some a) = false

-- the commands other than the title
abbrev pub untitled : Text → Text → MarkdownEditor → Result CommandError MarkdownEditor
untitled cmd args e =
    if text_eq cmd (codes "tag")
    then (if is_empty args then err missing_tag else ok (record e { tags = add_tag args e.tags }))
    else if text_eq cmd (codes "save")
    then ok (record e { dirty = false })
    else if text_eq cmd (codes "delete")
    then ok (edit [] 0 e)
    else if text_eq cmd (codes "move")
    then (if is_empty args then err missing_space else ok (record e { pending_space = some args }))
    else err (unknown_command cmd)

abbrev pub slash : Text → Text → MarkdownEditor → Result CommandError MarkdownEditor
slash cmd args e =
    if text_eq cmd (codes "title")
    then (if is_empty args
        then err missing_title
        else ok (set_title_heading args (record e { title = args })))
    else untitled cmd args e

unfoldable pub slash_command : Text → MarkdownEditor → Result CommandError MarkdownEditor
unfolding split_once trim set_title_heading
slash_command command e =
    let (cmd, args) = command_of command (split_once 32 command) in slash cmd args e

unfoldable pub render : MarkdownEditor → Text
render e =
    if not (is_empty e.title) && is_none (strip_prefix (codes "# ") e.content)
    then codes "# " ++ (e.title ++ (codes "\n\n" ++ e.content))
    else e.content
