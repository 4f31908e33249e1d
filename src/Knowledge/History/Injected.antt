-- ===== src/Knowledge/History/Injected.antt =====
-- What automatic retrieval injects after a history of the store.
use lucy.Prelude.{
  ℕ, zero, suc, ◌≡◌, ap, sym, ◌∙◌, Bool, true, ◌&&◌, not, ◌⊎◌, inl, inr, List, [], ◌∷◌, keep, take,
  arith, All, Bool-cases,
}
use lucy.Text.{Text, is_empty}
use lucy.Knowledge.Provenance.{SourceKind, owner_utterance, lucy_derived, injectable}
use lucy.Knowledge.Provenance.Trust.{injectable-classify_iff}
use lucy.Knowledge.Slugs.{fts_query}
use lucy.Knowledge.Store.{ChunkRow, Ranking, retrieval_limit, search_limit}
use lucy.Knowledge.Recall.{Chunk, chunk_of, chunks_from, visible, clamp, search, retrieve}
use lucy.Knowledge.History.{Action, perform_all, new_store}
use lucy.Knowledge.History.Quarantine.{Told, Tells, perform_all-Told}

-- SQLite answers a query with rows of those it was given
abbrev pub Selects : Ranking → Type 1
Selects sql =
    (P : ChunkRow → Type 0) (terms : Text) (rows : List ChunkRow)
    → All P rows
    → All P (sql.matching terms rows)

All-keep {ℓ} :
    {A : Type ℓ} (P : A → Type 0) (p : A → Bool) (xs : List A)
    → All P xs
    → All (λ x. P x × (p x ≡ true)) (keep p xs)
All-keep P p [] h = tt
All-keep P p (x ∷ xs) h = elim (Bool-cases (p x)) [
  | inl e ↦ rw e ((h.0, e), All-keep P p xs h.1)
  | inr e ↦ rw e (All-keep P p xs h.1)
]

All-take {ℓ} : {A : Type ℓ} (P : A → Type 0) (n : ℕ) (xs : List A) → All P xs → All P (take n xs)
All-take P zero xs h = tt
All-take P (suc n) [] h = tt
All-take P (suc n) (x ∷ xs) h = (h.0, All-take P n xs h.1)

-- told by the owner or derived by Lucy
abbrev pub Trusted : (Text → SourceKind → Type 0) → Chunk → Type 0
Trusted T c =
    (source : SourceKind) × T c.body source
    × ((source ≡ owner_utterance) ⊎ (source ≡ lucy_derived))
    × (c.promoted ≡ true)

visible-parts :
    (tombstone promoted may : Bool)
    → (not tombstone && (promoted && may)) ≡ true
    → (promoted ≡ true) × (may ≡ true)
visible-parts tombstone promoted may h = ground arith

Told-Trusted :
    (T : Text → SourceKind → Type 0) (r : ChunkRow)
    → Told T r
    → visible true r ≡ true
    → Trusted T (chunk_of r)
Told-Trusted T r ((source, told, o), gate) v =
    let (p, i) = visible-parts r.tombstone r.promoted (injectable r.origin) v in
    let may = (injectable-classify_iff r.body source).0 (ap injectable (sym o) ∙ i) in
    (source, told, may.0, p)

chunks_from-Trusted :
    (T : Text → SourceKind → Type 0) (rows : List ChunkRow)
    → All (λ r. Told T r × (visible true r ≡ true)) rows
    → All (Trusted T) (chunks_from rows)
chunks_from-Trusted T [] h = tt
chunks_from-Trusted T (r ∷ rows) h = elim (Bool-cases (is_empty r.slug)) [
  | inl e ↦ rw e (chunks_from-Trusted T rows h.1)
  | inr e ↦ rw e (Told-Trusted T r h.0.0 h.0.1, chunks_from-Trusted T rows h.1)
]

-- After any history of storing, observing, promoting, forgetting, superseding and retrieving, where
-- SQLite answers a query with rows of the table: whatever automatic retrieval then injects is promoted,
-- and its body is one that the store was told by the owner, or as derived by Lucy.
pub retrieve-Trusted :
    (T : Text → SourceKind → Type 0) (sql : Ranking) (actions : List Action) (query : Text)
    → Selects sql
    → All (Tells T) actions
    → All (Trusted T) ((retrieve sql query (perform_all sql actions new_store)).0)
unfolding retrieve search
retrieve-Trusted T sql actions query h t =
    let k = perform_all sql actions new_store in
    let s = perform_all-Told T sql actions new_store t (tt, tt, tt) in
    let terms = fts_query query in
    elim (Bool-cases (is_empty terms)) [
      | inl e ↦ rw e tt
      | inr e ↦ rw e (
          chunks_from-Trusted T _ (
            All-take _ (clamp 1 search_limit retrieval_limit)
              (sql.matching terms (keep (visible true) k.rows))
              (h _ terms (keep (visible true) k.rows)
                (All-keep (Told T) (visible true) k.rows s.2))))
    ]
