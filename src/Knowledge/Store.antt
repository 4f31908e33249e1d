-- ===== src/Knowledge/Store.antt =====
-- `KnowledgeStore` of crates/lucy-knowledge/src/store.rs: the table of chunks beside the topic files and
-- the observation files. SQLite is a parameter where it ranks rows; every statement and every write
-- succeeds. The time of an operation is its argument; the columns that only hold times are left out.
use lucy.Prelude.{
  ℕ, suc, Bool, true, false, ◌&&◌, ◌||◌, Option, none, some, List, [], ◌∷◌, ◌++◌, map, any, find,
  length, ltb, ◌==◌, if◌then◌else◌,
}
use lucy.Prelude.Maps.{Map, lookup, insert}
use lucy.Text.{Text, codes, text_eq, is_empty}
use lucy.Text.Equality.{text_key}
use lucy.Knowledge.Provenance.{Origin, SourceKind, as_str, classify, injectable}
use lucy.Knowledge.Slugs.{normalize, slugify, looks_secret}
use lucy.Knowledge.Files.{topic_text, promotion_text}

-- A row of kb_chunks; `origin` stands for its name, which `Origin::parse` reads back.
pub record ChunkRow : Type 0 where
  pub id : ℕ
  pub slug : Text
  pub heading : Text
  pub body : Text
  pub origin : Origin
  pub promoted : Bool
  pub supersedes : Option Text
  pub tombstone : Bool
  pub recalls : ℕ
  pub source_path : Text

pub record KnowledgeStore : Type 0 where
  pub rows : List ChunkRow
  pub next_id : ℕ
  -- the files by their names without the extension
  pub topics : Map Text Text
  pub observations : Map Text Text

pub record Candidate : Type 0 where
  pub slug : Text
  pub heading : Text
  pub body : Text
  pub source : SourceKind
  pub supersedes : Option Text

-- SQLite: the rows that match a query, best first, and the rows by their recalls.
pub record Ranking : Type 0 where
  pub matching : Text → List ChunkRow → List ChunkRow
  pub by_recalls : List ChunkRow → List ChunkRow

abbrev pub max_chunk_chars : ℕ
max_chunk_chars = 1200

abbrev pub search_limit : ℕ
search_limit = 8

abbrev pub retrieval_limit : ℕ
retrieval_limit = 6

abbrev pub unwritable : Text → Bool
unwritable body = is_empty body || ltb max_chunk_chars (length body)

abbrev pub add_row : ChunkRow → KnowledgeStore → KnowledgeStore
add_row r k = record k {
  rows = k.rows ++ record r { id = k.next_id } ∷ [];
  next_id = suc k.next_id;
}

abbrev pub new_row : Text → Text → Text → Origin → Text → ChunkRow
new_row slug heading body origin path = record {
  id = 0;
  slug = slug;
  heading = heading;
  body = body;
  origin = origin;
  promoted = false;
  supersedes = none;
  tombstone = false;
  recalls = 0;
  source_path = path;
}

-- the text of a file, empty where there is none
abbrev pub or_nothing : Option Text → Text
or_nothing none = []
or_nothing (some text) = text

-- `write_topic_file`
abbrev pub write_topic_file : Text → Text → Text → Origin → Text → KnowledgeStore → KnowledgeStore
write_topic_file slug heading body origin stamp k = record k {
  topics =
      insert slug (topic_text slug heading body origin stamp (or_nothing (lookup slug k.topics)))
        k.topics;
}

-- `write_promotion`
abbrev pub promoted_file : Text → Text → KnowledgeStore → Option Text → KnowledgeStore
promoted_file slug stamp k none = k
promoted_file slug stamp k (some text) = record k {
  topics = insert slug (promotion_text true stamp text) k.topics;
}

abbrev pub topic_path : Text → Text
topic_path slug = codes "topics/" ++ (slug ++ codes ".md")

abbrev pub observation_path : Text → Text
observation_path name = codes "observations/" ++ (name ++ codes ".md")

abbrev pub exact_duplicate : Text → Text → Text → List ChunkRow → Bool
exact_duplicate slug heading body =
    any (λ r. text_eq r.slug slug && text_eq r.heading heading && text_eq r.body body)

abbrev nonempty_slug : Text → Option Text
nonempty_slug s = if is_empty s then none else some s

abbrev pub slug_of : Option Text → Option Text
slug_of none = none
slug_of (some raw) = nonempty_slug (slugify raw)

abbrev pub refuses : Text → Text → Text → List ChunkRow → Bool
refuses slug heading body rows =
    unwritable body || looks_secret body || is_empty slug || exact_duplicate slug heading body rows

-- `store`; the answer is the id of the row
unfoldable pub store : Text → Candidate → KnowledgeStore → Option ℕ × KnowledgeStore
store now c k =
    let body = normalize c.body in
    let slug = slugify c.slug in
    let heading = normalize c.heading in
    let origin = classify body c.source in
    let row = record (new_row slug heading body origin (topic_path slug)) {
      supersedes = slug_of c.supersedes;
    } in
    if refuses slug heading body k.rows
    then (none, k)
    else (some k.next_id, add_row row (write_topic_file slug heading body origin now k))

abbrev pub observation_text : Text → Text → Origin → Text → Text
observation_text slug body origin now =
    codes "<!-- lucy observation · origin: "
    ++ (as_str origin
        ++ (codes " · "
            ++ (now ++ (codes " -->\n# " ++ (slug ++ (codes "\n\n" ++ (body ++ codes "\n")))))))

abbrev pub refuses_note : Text → Text → Bool
refuses_note slug body = is_empty slug || unwritable body || looks_secret body

-- `observe`
unfoldable pub observe : Text → Text → Text → Text → SourceKind → KnowledgeStore → KnowledgeStore
unfolding insert
observe now raw_slug heading raw_body source k =
    let body = normalize raw_body in
    let slug = slugify raw_slug in
    let origin = classify body source in
    let name = slug ++ (codes "-" ++ now) in
    if refuses_note slug body
    then k
    else add_row (new_row slug (normalize heading) body origin (observation_path name)) (record k {
      observations = insert name (observation_text slug body origin now) k.observations;
    })

abbrev pub row_by_id : ℕ → List ChunkRow → Option ChunkRow
row_by_id id = find (λ r. r.id == id)

abbrev pub update : (ChunkRow → Bool) → (ChunkRow → ChunkRow) → KnowledgeStore → KnowledgeStore
update test change k = record k { rows = map (λ r. if test r then change r else r) k.rows }

abbrev pub mark_promoted : ChunkRow → ChunkRow
mark_promoted r = record r { promoted = true }

abbrev pub promote_file : Text → Text → KnowledgeStore → KnowledgeStore
promote_file slug stamp k =
    if is_empty slug then k else promoted_file slug stamp k (lookup slug k.topics)

abbrev pub promote_row : Text → ℕ → KnowledgeStore → Option ChunkRow → Bool × KnowledgeStore
promote_row now id k none = (false, k)
promote_row now id k (some r) =
    if injectable r.origin
    then (true, promote_file r.slug now (update (λ q. q.id == id) mark_promoted k))
    else (false, k)

-- `promote`
unfoldable pub promote : Text → ℕ → KnowledgeStore → Bool × KnowledgeStore
promote now id k = promote_row now id k (row_by_id id k.rows)
