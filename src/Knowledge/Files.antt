-- ===== src/Knowledge/Files.antt =====
-- The Markdown files of crates/lucy-knowledge/src/store.rs: the header that keeps a topic's provenance,
-- what is written, and how a file is read back.
pub mod Headers
pub mod Survives
use lucy.Prelude.{
  ℕ, Bool, true, false, ◌&&◌, not, Option, none, some, List, [], ◌∷◌, ◌++◌, take, if◌then◌else◌,
  map,
}
use lucy.Text.{
  Text, codes, is_empty, trim, trim_start, strip_prefix, split, to_ascii_lowercase, starts_with,
}
use lucy.Core.Truncate.{lines}
use lucy.Knowledge.Provenance.{Origin, untrusted, as_str, parse_origin, injectable}

abbrev pub yes_no : Bool → Text
yes_no true = codes "yes"
yes_no false = codes "no"

unfoldable pub header : Origin → Bool → Text → Text
header origin promoted stamp =
    codes "<!-- lucy knowledge · origin: "
    ++ (as_str origin
        ++ (codes " · promoted: "
            ++ (yes_no promoted ++ (codes " · updated: " ++ (stamp ++ codes " -->")))))

pub record FileMeta : Type 0 where
  pub origin : Origin
  pub promoted : Bool

-- What the fields of a header have said so far.
abbrev Fields : Type 0
Fields = Option Origin × Bool

abbrev read_promoted : Fields → Option Text → Fields
read_promoted f none = f
read_promoted f (some value) = (f.0, starts_with (codes "yes") (trim value))

abbrev read_origin : Text → Fields → Option Text → Fields
read_origin field f none = read_promoted f (strip_prefix (codes "promoted:") field)
read_origin field f (some value) = (parse_origin (trim value), f.1)

abbrev pub read_fields : List Text → Fields → Fields
read_fields [] f = f
read_fields (raw ∷ rest) f =
    let field = trim raw in
    read_fields rest (read_origin field f (strip_prefix (codes "origin:") field))

abbrev meta_by : Fields → Option FileMeta
meta_by (none, promoted) = none
meta_by (some origin, promoted) =
    some (record { origin = origin; promoted = promoted && injectable origin })

abbrev pub dot : ℕ
dot = 0xB7

abbrev pub is_header : Text → Bool
is_header line = starts_with (codes "<!-- lucy knowledge") (to_ascii_lowercase line)

abbrev pub first_header : List Text → Option FileMeta
first_header [] = none
first_header (line ∷ rest) =
    let others = first_header rest in
    if is_header line then meta_by (read_fields (split dot line) (none, false)) else others

unfoldable pub file_meta : Text → Option FileMeta
file_meta text = first_header (take 6 (lines text))

abbrev pub origin_by : Option FileMeta → Origin
origin_by none = untrusted
origin_by (some m) = m.origin

abbrev pub promoted_by : Option FileMeta → Bool
promoted_by none = false
promoted_by (some m) = m.promoted

-- the entry of a chunk
abbrev pub entry_of : Text → Text → Text
entry_of heading body =
    if is_empty (trim heading)
    then codes "\n- " ++ (body ++ codes "\n")
    else codes "\n## " ++ (heading ++ (codes "\n\n" ++ (body ++ codes "\n")))

-- `write_topic_file`: the new text of the file
unfoldable pub topic_text : Text → Text → Text → Origin → Text → Text → Text
topic_text slug heading body origin stamp existing =
    if is_empty (trim existing)
    then header origin false stamp ++ (codes "\n# " ++ (slug ++ entry_of heading body))
    else existing ++ entry_of heading body

abbrev rewrite_lines : Text → List Text → Text
rewrite_lines new [] = []
rewrite_lines new (line ∷ rest) =
    (if is_header line then new else line ++ codes "\n") ++ rewrite_lines new rest

-- `write_promotion`: the new text of the file
unfoldable pub promotion_text : Bool → Text → Text → Text
promotion_text promoted stamp text =
    rewrite_lines (header (origin_by (file_meta text)) promoted stamp) (lines text)

pub record Sections : Type 0 where
  pub out : List (Text × Text)
  pub heading : Text
  pub body : Text

abbrev flush : Sections → Sections
flush s =
    if is_empty (trim s.body)
    then s
    else record { out = s.out ++ (s.heading, s.body) ∷ []; heading = []; body = [] }

abbrev titled : Text → Text → Sections → Option Text → Sections
titled trimmed line s (some rest) = record (flush s) { heading = trim rest }
titled trimmed line s none =
    if starts_with (codes "# ") trimmed
    then record (flush s) { heading = [] }
    else record s { body = s.body ++ (line ++ codes "\n") }

abbrev read_line : Sections → Text → Sections
read_line s line =
    let trimmed = trim_start line in
    if starts_with (codes "<!--") trimmed
    then s
    else titled trimmed line s (strip_prefix (codes "## ") trimmed)

abbrev read_lines : List Text → Sections → Sections
read_lines [] s = s
read_lines (line ∷ rest) s = read_lines rest (read_line s line)

abbrev or_star : Text → Text → Option Text → Text
or_star body trimmed (some rest) = rest
or_star body trimmed none = elim (strip_prefix (codes "* ") trimmed) [
  | none ↦ body
  | some rest ↦ rest
]

unfoldable pub strip_marker : Text → Text
strip_marker body =
    let trimmed = trim_start body in or_star body trimmed (strip_prefix (codes "- ") trimmed)

unfoldable pub sections : Text → List (Text × Text)
sections text =
    let read = flush (read_lines (lines text) (record { out = []; heading = []; body = [] })) in
    map (λ s. (s.0, strip_marker s.1)) read.out
