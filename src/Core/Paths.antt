-- ===== src/Core/Paths.antt =====
-- `ToolContext::resolve_path` and `resolve_path_checked` of crates/lucy-core/src/lib.rs. A path is its
-- components without "."; the last one comes first. The file system is a parameter.
pub mod Within
use lucy.Prelude.{
  ℕ, Bool, true, false, ◌&&◌, ◌||◌, Option, none, some, List, [], ◌∷◌, ◌++◌, if◌then◌else◌, Result,
  ok, err, ◌>>=◌, ok_or,
}
use lucy.Text.{Text, text_eq}

pub data Component : Type 0 where
  normal : Text → Component
  parent_dir : Component

-- the components behind "/"
abbrev pub Absolute : Type 0
Absolute = List Component

pub record PathText : Type 0 where
  pub is_absolute : Bool
  pub components : List Component

-- What the code asks of the operating system.
pub record FileSystem : Type 0 where
  pub current_dir : Option Absolute
  -- of a path that exists, with its links followed
  pub canonicalize : Absolute → Option Absolute
  pub exists : Absolute → Bool

pub data PathError : Type 0 where
  no_current_dir no_root unresolvable outside : PathError

-- `resolve_path`; the working directory is absolute
unfoldable pub resolve_path : Option Absolute → PathText → PathText
resolve_path none p = p
resolve_path (some base) p =
    if p.is_absolute then p else record { is_absolute = true; components = p.components ++ base }

abbrev pub component_eq : Component → Component → Bool
component_eq (normal a) (normal b) = text_eq a b
component_eq parent_dir parent_dir = true
component_eq a b = false

abbrev pub path_eq : Absolute → Absolute → Bool
path_eq [] [] = true
path_eq (a ∷ p) (b ∷ q) = component_eq a b && path_eq p q
path_eq p q = false

-- `starts_with` of the second path
abbrev pub path_starts_with : Absolute → Absolute → Bool
path_starts_with root [] = path_eq root []
path_starts_with root (c ∷ p) = path_eq root (c ∷ p) || path_starts_with root p

abbrev under : List Component → Option Absolute → Result PathError Absolute
under missing none = err unresolvable
under missing (some q) = ok (missing ++ q)

-- `file_name` is none where the path ends in ".."
abbrev with_name : Component → List Component → List Component
with_name (normal n) missing = missing ++ normal n ∷ []
with_name parent_dir missing = missing

-- the nearest ancestor that exists, with the names below it that do not
unfoldable pub from_ancestor : FileSystem → Absolute → List Component → Result PathError Absolute
from_ancestor fs [] missing =
    if fs.exists [] then under missing (fs.canonicalize []) else err unresolvable
from_ancestor fs (c ∷ p) missing =
    let above = from_ancestor fs p (with_name c missing) in
    if fs.exists (c ∷ p) then under missing (fs.canonicalize (c ∷ p)) else above

abbrev pub canonical_of : FileSystem → Absolute → Option Absolute → Result PathError Absolute
canonical_of fs candidate none = from_ancestor fs candidate []
canonical_of fs candidate (some q) = ok q

abbrev pub inside : Absolute → Absolute → Result PathError Absolute
inside root q = if path_starts_with root q then ok q else err outside

abbrev pub candidate_of : Absolute → PathText → Absolute
candidate_of root p = if p.is_absolute then p.components else p.components ++ root

abbrev pub checked_in : FileSystem → PathText → Absolute → Result PathError Absolute
checked_in fs p root =
    let candidate = candidate_of root p in
    canonical_of fs candidate (fs.canonicalize candidate) >>= inside root

abbrev pub base_of : Option Absolute → Absolute → Absolute
base_of none current = current
base_of (some base) current = base

abbrev pub checked_from :
    FileSystem → Option Absolute → PathText → Absolute → Result PathError Absolute
checked_from fs working_dir p current =
    ok_or (fs.canonicalize (base_of working_dir current)) no_root >>= checked_in fs p

-- `resolve_path_checked`; the current directory is read also where there is a working directory
unfoldable pub resolve_path_checked :
    FileSystem → Option Absolute → PathText → Result PathError Absolute
resolve_path_checked fs working_dir p =
    ok_or fs.current_dir no_current_dir >>= checked_from fs working_dir p
