-- ===== src/Knowledge/Recall.antt =====
-- Recall, forgetting and the promotion gate of crates/lucy-knowledge/src/{store,capture}.rs.
use lucy.Prelude.{
  ℕ, suc, Bool, true, false, ◌&&◌, not, Option, none, some, List, [], ◌∷◌, ◌++◌, map, keep, find,
  take, length, max, min, leb, if◌then◌else◌,
}
use lucy.Text.{Text, text_eq, trim, is_empty}
use lucy.Knowledge.Provenance.{Origin, injectable}
use lucy.Knowledge.Slugs.{slugify, fts_query}
use lucy.Knowledge.Store.{
  ChunkRow, KnowledgeStore, Ranking, search_limit, retrieval_limit, row_by_id, update, promote,
}

abbrev pub hide : ChunkRow → ChunkRow
hide r = record r { tombstone = true }

abbrev pub live_under : Text → ChunkRow → Bool
live_under slug r = text_eq r.slug slug && not r.tombstone

-- `forget`; the answer is the number of rows that it hides
unfoldable pub forget : Text → KnowledgeStore → ℕ × KnowledgeStore
unfolding slugify
forget raw k =
    let slug = slugify raw in
    (length (keep (live_under slug) k.rows), update (live_under slug) hide k)

abbrev pub supersede : Text → ℕ × KnowledgeStore → List Text × KnowledgeStore
supersede target (hidden, k) = (if leb 1 hidden then target ∷ [] else [], k)

abbrev pub supersede_by : KnowledgeStore → Option Text → List Text × KnowledgeStore
supersede_by k none = ([], k)
supersede_by k (some target) =
    if is_empty (trim target) then ([], k) else supersede target (forget target k)

abbrev pub target_of : Option ChunkRow → Option Text
target_of none = none
target_of (some r) = r.supersedes

-- `apply_supersession`
unfoldable pub apply_supersession : ℕ → KnowledgeStore → List Text × KnowledgeStore
unfolding forget
apply_supersession id k = supersede_by k (target_of (row_by_id id k.rows))

-- The part of a row that a reader gets.
pub record Chunk : Type 0 where
  pub id : ℕ
  pub slug : Text
  pub heading : Text
  pub body : Text
  pub origin : Origin
  pub promoted : Bool

abbrev pub chunk_of : ChunkRow → Chunk
chunk_of r = record {
  id = r.id;
  slug = r.slug;
  heading = r.heading;
  body = r.body;
  origin = r.origin;
  promoted = r.promoted;
}

-- `filter_map(chunk_from_row)`
abbrev pub chunks_from : List ChunkRow → List Chunk
chunks_from rows = map chunk_of (keep (λ r. not (is_empty r.slug)) rows)

-- the WHERE clauses of `search`
abbrev pub visible : Bool → ChunkRow → Bool
visible injectable_only r =
    not r.tombstone && (if injectable_only then r.promoted && injectable r.origin else true)

abbrev pub clamp : ℕ → ℕ → ℕ → ℕ
clamp low high n = min (max n low) high

-- `search`
unfoldable pub search : Ranking → Text → ℕ → Bool → KnowledgeStore → List Chunk
unfolding fts_query
search sql query limit injectable_only k =
    let terms = fts_query query in
    if is_empty terms
    then []
    else chunks_from (
        take (clamp 1 search_limit limit)
          (sql.matching terms (keep (visible injectable_only) k.rows)))

abbrev pub recalled : ChunkRow → ChunkRow
recalled r = record r { recalls = suc r.recalls }

abbrev pub same_claim : Text → Text → ChunkRow → Bool
same_claim slug heading r = text_eq r.slug slug && text_eq r.heading heading

-- `note_recall`
unfoldable pub note_recall : List Chunk → KnowledgeStore → KnowledgeStore
note_recall [] k = k
note_recall (hit ∷ hits) k = note_recall hits (update (same_claim hit.slug hit.heading) recalled k)

-- `retrieve`
unfoldable pub retrieve : Ranking → Text → KnowledgeStore → List Chunk × KnowledgeStore
unfolding search note_recall
retrieve sql query k =
    let hits = search sql query retrieval_limit true k in (hits, note_recall hits k)

abbrev pub waiting : ChunkRow → Bool
waiting r = not r.tombstone && (not r.promoted && injectable r.origin)

-- `promotion_candidates`
unfoldable pub promotion_candidates : Ranking → ℕ → KnowledgeStore → List Chunk
promotion_candidates sql limit k =
    chunks_from (take (clamp 1 64 limit) (sql.by_recalls (keep waiting k.rows)))

abbrev pub recalls_of : Option ChunkRow → ℕ
recalls_of none = 0
recalls_of (some r) = r.recalls

abbrev pub recall_count : Text → Text → KnowledgeStore → ℕ
recall_count slug heading k = recalls_of (find (same_claim slug heading) k.rows)

pub record PromotionReport : Type 0 where
  pub promoted : List Text
  pub considered : ℕ
  pub refused_untrusted : ℕ

abbrev pub refuse : PromotionReport → PromotionReport
refuse p = record p { refused_untrusted = suc p.refused_untrusted }

abbrev pub report : Chunk → PromotionReport → Bool → PromotionReport
report c p true = record p { promoted = p.promoted ++ c.slug ∷ [] }
report c p false = p

abbrev pub reported :
    Chunk → PromotionReport → Bool × KnowledgeStore → PromotionReport × KnowledgeStore
reported c p (done, k) = (report c p done, k)

-- the turn of one candidate
abbrev pub promote_one :
    Text → ℕ → Chunk → PromotionReport → KnowledgeStore → PromotionReport × KnowledgeStore
promote_one now min_recalls c p k =
    if not (injectable c.origin)
    then (refuse p, k)
    else if leb min_recalls (recall_count c.slug c.heading k)
    then reported c p (promote now c.id k)
    else (p, k)

unfoldable pub promote_each :
    Text → ℕ → List Chunk → PromotionReport × KnowledgeStore → PromotionReport × KnowledgeStore
unfolding promote
promote_each now min_recalls [] s = s
promote_each now min_recalls (c ∷ cs) s =
    promote_each now min_recalls cs (promote_one now min_recalls c s.0 s.1)

-- `promote_recalled`
unfoldable pub promote_recalled :
    Ranking → Text → ℕ → ℕ → KnowledgeStore → PromotionReport × KnowledgeStore
unfolding promotion_candidates promote_each
promote_recalled sql now min_recalls limit k =
    let candidates = promotion_candidates sql limit k in
    promote_each now min_recalls candidates
      (record { promoted = []; considered = length candidates; refused_untrusted = 0 }, k)
