-- ===== src/Knowledge/History/Quarantine.antt =====
-- The promotion gate over a history: only the words of the owner and of Lucy reach an injection.
use lucy.Prelude.{
  ℕ, ◌≡◌, refl, Bool, true, inl, inr, Option, none, some, List, [], ◌∷◌, ◌++◌, ◌==◌, leb, length,
  arith, All, Bool-cases,
}
use lucy.Prelude.Maps.{lookup, insert}
use lucy.Text.Equality.{text_key}
use lucy.Text.{Text, codes, is_empty, trim}
use lucy.Text.Laws.{All-map}
use lucy.Knowledge.Provenance.{SourceKind, classify, injectable}
use lucy.Knowledge.Slugs.{normalize, slugify}
use lucy.Knowledge.Store.{
  ChunkRow, KnowledgeStore, Candidate, Ranking, store, observe, promote, row_by_id, update,
  mark_promoted, promote_row, promote_file, promoted_file, write_topic_file, refuses, refuses_note,
  observation_text, observation_path, topic_path, new_row, slug_of, retrieval_limit,
}
use lucy.Knowledge.Recall.{
  forget, apply_supersession, Chunk, retrieve, note_recall, search, promote_one, promote_each,
  promote_recalled, PromotionReport, hide, live_under, supersede_by, target_of, recalled,
  same_claim, recall_count, promotion_candidates,
}
use lucy.Knowledge.History.{
  Action, stores, observes, promotes, forgets, supersedes, retrieves, promotes_recalled, perform,
  perform_all,
}
use lucy.Knowledge.History.Rows.{Sound, add_row-Sound, update-Sound, row_by_id-only}

-- `T` is what has been told: a body, and who said it
module _ (T : Text → SourceKind → Type 0) where
  -- the row was told, its origin is the one of what was told, and a promoted row may be injected
  abbrev pub Told : ChunkRow → Type 0
  Told r =
      ((source : SourceKind) × T r.body source × (r.origin ≡ classify r.body source))
      × (r.promoted ≡ true → injectable r.origin ≡ true)

  store-Told :
      (now : Text) (c : Candidate) (k : KnowledgeStore)
      → T (normalize c.body) c.source
      → Sound Told k
      → Sound Told ((store now c k).1)
  unfolding store
  store-Told now c k t s =
      let body = normalize c.body in
      let slug = slugify c.slug in
      let heading = normalize c.heading in
      let origin = classify body c.source in
      elim (Bool-cases (refuses slug heading body k.rows)) [
        | inl e ↦ rw e s
        | inr e ↦ rw e (
            add_row-Sound Told
              (record (new_row slug heading body origin (topic_path slug)) {
                supersedes = slug_of c.supersedes;
              })
              (write_topic_file slug heading body origin now k) s
              ((c.source, t, refl), λ p. ground (arith, p)))
      ]

  observe-Told :
      (now slug heading body : Text) (source : SourceKind) (k : KnowledgeStore)
      → T (normalize body) source
      → Sound Told k
      → Sound Told (observe now slug heading body source k)
  unfolding observe
  observe-Told now raw_slug heading raw_body source k t s =
      let body = normalize raw_body in
      let slug = slugify raw_slug in
      let origin = classify body source in
      let name = slug ++ (codes "-" ++ now) in
      elim (Bool-cases (refuses_note slug body)) [
        | inl e ↦ rw e s
        | inr e ↦ rw e (
            add_row-Sound Told
              (new_row slug (normalize heading) body origin (observation_path name))
              (record k {
                observations = insert name (observation_text slug body origin now) k.observations;
              })
              s ((source, t, refl), λ p. ground (arith, p)))
      ]

  All-mark_promoted :
      (id : ℕ) (rows : List ChunkRow)
      → All (λ q. (q.id == id) ≡ true → injectable q.origin ≡ true) rows
      → All Told rows
      → All (λ q. (q.id == id) ≡ true → Told (mark_promoted q)) rows
  All-mark_promoted id [] h s = tt
  All-mark_promoted id (q ∷ rows) h s =
      ((λ e. (s.0.0, λ u. h.0 e)), All-mark_promoted id rows h.1 s.1)

  promoted_file-Told :
      (slug now : Text) (k : KnowledgeStore) (o : Option Text)
      → Sound Told k
      → Sound Told (promoted_file slug now k o)
  promoted_file-Told slug now k none s = s
  promoted_file-Told slug now k (some text) s = s

  promote_file-Told :
      (slug now : Text) (k : KnowledgeStore) → Sound Told k → Sound Told (promote_file slug now k)
  promote_file-Told slug now k s = elim (Bool-cases (is_empty slug)) [
    | inl e ↦ rw e s
    | inr e ↦ rw e (promoted_file-Told slug now k (lookup slug k.topics) s)
  ]

  promote_row-Told :
      (now : Text) (id : ℕ) (k : KnowledgeStore) (o : Option ChunkRow)
      → Sound Told k
      → row_by_id id k.rows ≡ o
      → Sound Told ((promote_row now id k o).1)
  promote_row-Told now id k none s h = s
  promote_row-Told now id k (some r) s h = elim (Bool-cases (injectable r.origin)) [
    | inl e ↦ rw e (
        promote_file-Told r.slug now (update (λ q. q.id == id) mark_promoted k) (
          update-Sound Told (λ q. q.id == id) mark_promoted k (λ q. refl)
            (All-mark_promoted id k.rows
              (row_by_id-only (λ q. injectable q.origin ≡ true) id k.rows r s.0 h e) s.2)
            s))
    | inr e ↦ rw e s
  ]

  promote-Told :
      (now : Text) (id : ℕ) (k : KnowledgeStore) → Sound Told k → Sound Told ((promote now id k).1)
  unfolding promote
  promote-Told now id k s = promote_row-Told now id k (row_by_id id k.rows) s refl

  -- an update that changes neither what was told of a row nor its promotion
  plain_update-Told :
      (test : ChunkRow → Bool) (change : ChunkRow → ChunkRow) (k : KnowledgeStore)
      → ((r : ChunkRow) → (change r).id ≡ r.id)
      → ((r : ChunkRow) → Told r → Told (change r))
      → Sound Told k
      → Sound Told (update test change k)
  plain_update-Told test change k h p s =
      update-Sound Told test change k h (All-map (λ r t e. p r t) k.rows s.2) s

  forget-Told : (slug : Text) (k : KnowledgeStore) → Sound Told k → Sound Told ((forget slug k).1)
  unfolding forget
  forget-Told slug k s =
      plain_update-Told (live_under (slugify slug)) hide k (λ r. refl) (λ r t. t) s

  supersede_by-Told :
      (k : KnowledgeStore) (o : Option Text) → Sound Told k → Sound Told ((supersede_by k o).1)
  supersede_by-Told k none s = s
  supersede_by-Told k (some target) s = elim (Bool-cases (is_empty (trim target))) [
    | inl e ↦ rw e s
    | inr e ↦ rw e (forget-Told target k s)
  ]

  note_recall-Told :
      (hits : List Chunk) (k : KnowledgeStore) → Sound Told k → Sound Told (note_recall hits k)
  unfolding note_recall
  note_recall-Told [] k s = s
  note_recall-Told (hit ∷ hits) k s =
      note_recall-Told hits (update (same_claim hit.slug hit.heading) recalled k)
        (plain_update-Told (same_claim hit.slug hit.heading) recalled k (λ r. refl) (λ r t. t) s)

  promote_one-Told :
      (now : Text) (n : ℕ) (c : Chunk) (p : PromotionReport) (k : KnowledgeStore)
      → Sound Told k
      → Sound Told ((promote_one now n c p k).1)
  promote_one-Told now n c p k s = elim (Bool-cases (injectable c.origin)) [
    | inl e ↦ rw e (elim (Bool-cases (leb n (recall_count c.slug c.heading k))) [
      | inl f ↦ rw f (promote-Told now c.id k s)
      | inr f ↦ rw f s
    ])
    | inr e ↦ rw e s
  ]

  promote_each-Told :
      (now : Text) (n : ℕ) (cs : List Chunk) (p : PromotionReport × KnowledgeStore)
      → Sound Told p.1
      → Sound Told ((promote_each now n cs p).1)
  unfolding promote_each
  promote_each-Told now n [] p s = s
  promote_each-Told now n (c ∷ cs) (p, k) s =
      promote_each-Told now n cs (promote_one now n c p k) (promote_one-Told now n c p k s)

  -- what an operation tells the store
  abbrev pub Tells : Action → Type 0
  Tells (stores now c) = T (normalize c.body) c.source
  Tells (observes now slug heading body source) = T (normalize body) source
  Tells _ = Unit

  perform-Told :
      (sql : Ranking) (a : Action) (k : KnowledgeStore)
      → Tells a
      → Sound Told k
      → Sound Told (perform sql a k)
  unfolding perform apply_supersession retrieve promote_recalled
  perform-Told sql (stores now c) k t s = store-Told now c k t s
  perform-Told sql (observes now slug heading body source) k t s =
      observe-Told now slug heading body source k t s
  perform-Told sql (promotes now id) k t s = promote-Told now id k s
  perform-Told sql (forgets slug) k t s = forget-Told slug k s
  perform-Told sql (supersedes id) k t s = supersede_by-Told k (target_of (row_by_id id k.rows)) s
  perform-Told sql (retrieves query) k t s =
      note_recall-Told (search sql query retrieval_limit true k) k s
  perform-Told sql (promotes_recalled now n limit) k t s =
      let cs = promotion_candidates sql limit k in
      promote_each-Told now n cs
        (record { promoted = []; considered = length cs; refused_untrusted = 0 }, k) s

  pub perform_all-Told :
      (sql : Ranking) (actions : List Action) (k : KnowledgeStore)
      → All Tells actions
      → Sound Told k
      → Sound Told (perform_all sql actions k)
  unfolding perform_all
  perform_all-Told sql [] k t s = s
  perform_all-Told sql (a ∷ rest) k t s =
      perform_all-Told sql rest (perform sql a k) t.1 (perform-Told sql a k t.0 s)
