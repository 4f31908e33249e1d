-- ===== src/Knowledge/History.antt =====
-- What happens to the knowledge store between two reindexings, as a sequence of operations.
pub mod Rows
pub mod Quarantine
pub mod Injected
use lucy.Prelude.{ℕ, Bool, true, false, List, [], ◌∷◌}
use lucy.Text.{Text}
use lucy.Knowledge.Provenance.{SourceKind}
use lucy.Knowledge.Store.{KnowledgeStore, Candidate, Ranking, store, observe, promote}
use lucy.Knowledge.Recall.{forget, apply_supersession, retrieve, promote_recalled}

pub data Action : Type 0 where
  stores : Text → Candidate → Action
  -- the time, the slug, the heading, the body and where it is from
  observes : Text → Text → Text → Text → SourceKind → Action
  promotes : Text → ℕ → Action
  forgets : Text → Action
  supersedes : ℕ → Action
  retrieves : Text → Action
  -- the time, the recalls that are needed, and how many rows are considered
  promotes_recalled : Text → ℕ → ℕ → Action

unfoldable pub perform : Ranking → Action → KnowledgeStore → KnowledgeStore
unfolding store observe promote forget apply_supersession retrieve promote_recalled
perform sql (stores now c) k = (store now c k).1
perform sql (observes now slug heading body source) k = observe now slug heading body source k
perform sql (promotes now id) k = (promote now id k).1
perform sql (forgets slug) k = (forget slug k).1
perform sql (supersedes id) k = (apply_supersession id k).1
perform sql (retrieves query) k = (retrieve sql query k).1
perform sql (promotes_recalled now min_recalls limit) k =
    (promote_recalled sql now min_recalls limit k).1

unfoldable pub perform_all : Ranking → List Action → KnowledgeStore → KnowledgeStore
unfolding perform
perform_all sql [] k = k
perform_all sql (a ∷ rest) k = perform_all sql rest (perform sql a k)

abbrev pub new_store : KnowledgeStore
new_store = record { rows = []; next_id = 1; topics = []; observations = [] }
