-- ===== src/Knowledge/Digest.antt =====
-- What a prompt gets of the knowledge store: the digest of topics and the recalled chunks, of
-- crates/lucy-knowledge/src/store.rs.
pub mod Budget
use lucy.Prelude.{
  ℕ, zero, suc, ◌+◌, Bool, true, false, ◌&&◌, ◌||◌, not, List, [], ◌∷◌, ◌++◌, map, keep, take,
  length, leb, ltb, ◌==◌, if◌then◌else◌,
}
use lucy.Text.{Text, codes, text_eq, trim, is_empty, split_whitespace, join}
use lucy.Text.Bytes.{byte_len}
use lucy.Text.Decimal.{show_u32}
use lucy.Knowledge.Provenance.{Origin, owner, agent}
use lucy.Knowledge.Store.{KnowledgeStore, Ranking}
use lucy.Knowledge.Recall.{Chunk, retrieve}

abbrev long_dash : Text
long_dash = 32 ∷ 0x2014 ∷ 32 ∷ []

-- `one_line`
unfoldable pub one_line : Text → ℕ → Text
unfolding split_whitespace join
one_line text most =
    let flat = join (codes " ") (split_whitespace text) in
    if leb (length flat) most then flat else take most flat ++ 0x2026 ∷ []

-- `Chunk::render`
unfoldable pub render_chunk : Chunk → ℕ → Text
unfolding trim show_u32
render_chunk c index =
    let label =
      if is_empty (trim c.heading) then c.slug else c.slug ++ (long_dash ++ trim c.heading) in
    codes "\n- Knowledge "
    ++ (show_u32 index ++ (codes " [" ++ (label ++ (codes "]: " ++ (trim c.body ++ codes "\n")))))

-- the blocks of the hits, each with its number
abbrev pub blocks : ℕ → List Chunk → List Text
unfolding render_chunk
blocks index [] = []
blocks index (c ∷ cs) = render_chunk c (suc index) ∷ blocks (suc index) cs

-- the parts one after the other, up to the first that does not fit
unfoldable pub fill : ℕ → Text → List Text → Text
unfolding byte_len
fill budget out [] = out
fill budget out (part ∷ parts) =
    if ltb budget (byte_len out + byte_len part) then out else fill budget (out ++ part) parts

abbrev recalled_header : Text
recalled_header = codes "## Recalled knowledge\n"

abbrev pub headed : Text → Text
headed out = if is_empty out then [] else recalled_header ++ out

-- `render_context`; every block has some text, so that nothing was added exactly where the text is empty
unfoldable pub render_context : List Chunk → ℕ → Text
unfolding fill blocks
render_context hits budget = headed (fill budget [] (blocks 0 hits))

-- the first chunk of each topic
unfoldable pub first_per_slug : List Chunk → List Chunk
first_per_slug [] = []
first_per_slug (c ∷ cs) = c ∷ keep (λ d. not (text_eq c.slug d.slug)) (first_per_slug cs)

-- the order of texts by their bytes, which is the one of their code points
abbrev pub text_le : Text → Text → Bool
text_le [] t = true
text_le (c ∷ s) [] = false
text_le (c ∷ s) (d ∷ t) = let rest = text_le s t in ltb c d || (c == d && rest)

-- `a` may stand before `b`
abbrev pub goes_before : Chunk → Chunk → Bool
goes_before a b =
    if a.promoted
    then not b.promoted || text_le a.slug b.slug
    else not b.promoted && text_le a.slug b.slug

abbrev insert_topic : Chunk → List Chunk → List Chunk
insert_topic c [] = c ∷ []
insert_topic c (d ∷ ds) =
    let rest = insert_topic c ds in if goes_before c d then c ∷ d ∷ ds else d ∷ rest

-- `sort_by`: equal topics keep their order
unfoldable pub sort_topics : List Chunk → List Chunk
sort_topics [] = []
sort_topics (c ∷ cs) = insert_topic c (sort_topics cs)

unfoldable pub topic_line : Chunk → Text
unfolding one_line trim
topic_line c =
    let label =
      if is_empty (trim c.heading)
      then c.slug
      else c.slug ++ (long_dash ++ one_line c.heading 48) in
    (if c.promoted then codes "+" else codes ".") ++ (codes " " ++ (label ++ codes "\n"))

abbrev pub digest_lines : List Chunk → List Text
unfolding topic_line
digest_lines chunks = map topic_line chunks

-- `render_digest`
unfoldable pub render_digest : List Chunk → ℕ → Text
unfolding fill sort_topics first_per_slug digest_lines
render_digest chunks budget = fill budget [] (digest_lines (sort_topics (first_per_slug chunks)))

abbrev retrieval_budget_chars : ℕ
retrieval_budget_chars = 6000

-- `context_for`
unfoldable pub context_for : Ranking → Text → KnowledgeStore → Text × KnowledgeStore
unfolding retrieve render_context
context_for sql query k =
    let (hits, k') = retrieve sql query k in (render_context hits retrieval_budget_chars, k')
