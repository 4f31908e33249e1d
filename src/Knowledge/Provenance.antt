-- ===== src/Knowledge/Provenance.antt =====
-- crates/lucy-knowledge/src/provenance.rs.
pub mod Trust
use lucy.Prelude.{ℕ, Bool, true, false, ◌||◌, Option, none, some, List, [], ◌∷◌, map, if◌then◌else◌}
use lucy.Text.{Text, codes, text_eq, trim, to_ascii_lowercase, starts_with, contains_text}

pub data Origin : Type 0 where
  owner agent untrusted system : Origin

pub data SourceKind : Type 0 where
  owner_utterance lucy_derived external_read scaffolding : SourceKind

unfoldable pub as_str : Origin → Text
as_str owner = codes "owner"
as_str agent = codes "agent"
as_str untrusted = codes "untrusted"
as_str system = codes "system"

abbrev named : Text → Option Origin
named s =
    if text_eq s (codes "owner")
    then some owner
    else if text_eq s (codes "agent")
    then some agent
    else if text_eq s (codes "untrusted")
    then some untrusted
    else if text_eq s (codes "system")
    then some system
    else none

-- `Origin::parse`
unfoldable pub parse_origin : Text → Option Origin
unfolding trim
parse_origin raw = named (to_ascii_lowercase (trim raw))

unfoldable pub is_scaffolding : Text → Bool
unfolding starts_with contains_text trim
is_scaffolding content =
    let lower = to_ascii_lowercase (trim content) in
    starts_with (codes "you are lucy") lower
    || starts_with (codes "return only json") lower
    || contains_text (codes "return exactly:") lower
    || starts_with (codes "system:") lower

-- `Origin::classify`
unfoldable pub classify : Text → SourceKind → Origin
unfolding is_scaffolding
classify content owner_utterance = if is_scaffolding content then system else owner
classify content lucy_derived = if is_scaffolding content then system else agent
classify content external_read = untrusted
classify content scaffolding = system

unfoldable pub injectable : Origin → Bool
injectable owner = true
injectable agent = true
injectable _ = false
