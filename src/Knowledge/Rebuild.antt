-- ===== src/Knowledge/Rebuild.antt =====
-- `reindex` of crates/lucy-knowledge/src/store.rs: the rows are made again from the files. The files of
-- a directory come in the order of the map, and every file there is a Markdown file.
use lucy.Prelude.{ℕ, Bool, false, List, [], ◌∷◌, length, if◌then◌else◌}
use lucy.Prelude.Maps.{Map}
use lucy.Text.{Text}
use lucy.Knowledge.Provenance.{Origin, untrusted}
use lucy.Knowledge.Slugs.{normalize, slugify}
use lucy.Knowledge.Files.{file_meta, origin_by, promoted_by, sections}
use lucy.Knowledge.Store.{
  ChunkRow, KnowledgeStore, add_row, new_row, unwritable, topic_path, observation_path,
}

-- a row for each section that is neither empty nor too long
abbrev pub restore_sections : ChunkRow → List (Text × Text) → KnowledgeStore → KnowledgeStore
restore_sections r [] k = k
restore_sections r ((heading, body) ∷ rest) k =
    let text = normalize body in
    restore_sections r rest
      (if unwritable text then k else add_row (record r { heading = heading; body = text }) k)

abbrev pub restore_file : Text → Text → Origin → Bool → Text → KnowledgeStore → KnowledgeStore
restore_file path stem origin promoted text =
    restore_sections (record (new_row (slugify stem) [] [] origin path) { promoted = promoted })
      (sections text)

unfoldable pub restore_topics : Map Text Text → KnowledgeStore → KnowledgeStore
unfolding file_meta
restore_topics [] k = k
restore_topics ((stem, text) ∷ files) k =
    let meta = file_meta text in
    restore_topics files
      (restore_file (topic_path stem) stem (origin_by meta) (promoted_by meta) text k)

unfoldable pub restore_observations : Map Text Text → KnowledgeStore → KnowledgeStore
restore_observations [] k = k
restore_observations ((stem, text) ∷ files) k =
    restore_observations files (restore_file (observation_path stem) stem untrusted false text k)

-- `reindex`; the answer is the number of rows
unfoldable pub reindex : KnowledgeStore → ℕ × KnowledgeStore
unfolding restore_topics restore_observations
reindex k =
    let restored =
      restore_observations k.observations (restore_topics k.topics (record k { rows = [] })) in
    (length restored.rows, restored)
