-- ===== src/Knowledge/History/Rows.antt =====
-- The rows of the table: their ids are distinct, and a predicate of rows that every new row satisfies
-- and every update keeps holds of them all.
use lucy.Prelude.{
  ℕ, ◌<◌, ◌≡◌, ◌≢◌, refl, sym, ap, Bool, true, false, Option, some, List, [], ◌∷◌, ◌++◌, map, ◌==◌,
  ==_iff, if◌then◌else◌, arith, All, Bool-cases, inl, inr,
}
use mathlib.Core.Path.{subst}
use lucy.Text.Laws.{All-map, All-append}
use lucy.Knowledge.Store.{ChunkRow, KnowledgeStore, row_by_id, update, add_row}

abbrev pub ids : List ChunkRow → List ℕ
ids = map (λ r. r.id)

abbrev pub Distinct : List ℕ → Type 0
Distinct [] = Unit
Distinct (i ∷ js) = All (λ j. j ≢ i) js × Distinct js

-- the ids are distinct and have been given, and the rows satisfy `P`
abbrev pub Sound : (ChunkRow → Type 0) → KnowledgeStore → Type 0
Sound P k = Distinct (ids k.rows) × All (λ i. i < k.next_id) (ids k.rows) × All P k.rows

Distinct-append :
    (is : List ℕ) (n : ℕ) → Distinct is → All (λ i. i < n) is → Distinct (is ++ n ∷ [])
Distinct-append [] n d h = (tt, tt)
Distinct-append (i ∷ is) n d h = (
  All-append _ is (n ∷ []) d.0 ((λ e. absurd (omega (arith, e, h.0))), tt),
  Distinct-append is n d.1 h.1,
)

ids-append : (rows : List ChunkRow) (r : ChunkRow) → ids (rows ++ r ∷ []) ≡ ids rows ++ r.id ∷ []
ids-append [] r = refl
ids-append (q ∷ rows) r = ap (λ x. q.id ∷ x) (ids-append rows r)

pub add_row-Sound :
    (P : ChunkRow → Type 0) (r : ChunkRow) (k : KnowledgeStore)
    → Sound P k
    → P (record r { id = k.next_id })
    → Sound P (add_row r k)
add_row-Sound P r k (d, b, h) p = (
  rw (ids-append k.rows (record r { id = k.next_id })) (Distinct-append (ids k.rows) k.next_id d b),
  rw (ids-append k.rows (record r { id = k.next_id })) (
      All-append _ (ids k.rows) (k.next_id ∷ []) (All-map (λ i l. omega (arith, l)) (ids k.rows) b)
        (omega arith, tt)),
  All-append P k.rows (record r { id = k.next_id } ∷ []) h (p, tt),
)

ids-update :
    (test : ChunkRow → Bool) (change : ChunkRow → ChunkRow) (rows : List ChunkRow)
    → ((r : ChunkRow) → (change r).id ≡ r.id)
    → ids (map (λ r. if test r then change r else r) rows) ≡ ids rows
ids-update test change [] h = refl
ids-update test change (r ∷ rows) h = elim (Bool-cases (test r)) [
  | inl e ↦ rw (e, h r, ids-update test change rows h) refl
  | inr e ↦ rw (e, ids-update test change rows h) refl
]

All-update :
    (P : ChunkRow → Type 0) (test : ChunkRow → Bool) (change : ChunkRow → ChunkRow)
    (rows : List ChunkRow)
    → All (λ r. test r ≡ true → P (change r)) rows
    → All P rows
    → All P (map (λ r. if test r then change r else r) rows)
All-update P test change [] h k = tt
All-update P test change (r ∷ rows) h k = elim (Bool-cases (test r)) [
  | inl e ↦ rw e (h.0 e, All-update P test change rows h.1 k.1)
  | inr e ↦ rw e (k.0, All-update P test change rows h.1 k.1)
]

pub update-Sound :
    (P : ChunkRow → Type 0) (test : ChunkRow → Bool) (change : ChunkRow → ChunkRow)
    (k : KnowledgeStore)
    → ((r : ChunkRow) → (change r).id ≡ r.id)
    → All (λ r. test r ≡ true → P (change r)) k.rows
    → Sound P k
    → Sound P (update test change k)
update-Sound P test change k e c (d, b, h) = (
  subst Distinct (sym (ids-update test change k.rows e)) d,
  subst (All (λ i. i < k.next_id)) (sym (ids-update test change k.rows e)) b,
  All-update P test change k.rows c h,
)

others-by_id :
    (Q : ChunkRow → Type 0) (id : ℕ) (rows : List ChunkRow)
    → All (λ j. j ≢ id) (ids rows)
    → All (λ r. (r.id == id) ≡ true → Q r) rows
others-by_id Q id [] h = tt
others-by_id Q id (r ∷ rows) h =
    ((λ e. absurd (h.0 ((==_iff r.id id).0 e))), others-by_id Q id rows h.1)

if_some-true :
    (b : Bool) (q r : ChunkRow) (o : Option ChunkRow)
    → (if b then some q else o) ≡ some r
    → b ≡ true
    → q ≡ r
if_some-true b q r o h e = ground (arith, h, e)

if_some-false :
    (b : Bool) (q r : ChunkRow) (o : Option ChunkRow)
    → (if b then some q else o) ≡ some r
    → b ≡ false
    → o ≡ some r
if_some-false b q r o h e = ground (arith, h, e)

-- what holds of the row that an id names holds of every row with the id
pub row_by_id-only :
    (Q : ChunkRow → Type 0) (id : ℕ) (rows : List ChunkRow) (r : ChunkRow)
    → Distinct (ids rows)
    → row_by_id id rows ≡ some r
    → Q r
    → All (λ q. (q.id == id) ≡ true → Q q) rows
row_by_id-only Q id [] r d h p = tt
row_by_id-only Q id (q ∷ rows) r d h p = elim (Bool-cases (q.id == id)) [
  | inl e ↦ (
    (λ u. subst Q (sym (if_some-true (q.id == id) q r (row_by_id id rows) h e)) p),
    others-by_id Q id rows (subst (λ i. All (λ j. j ≢ i) (ids rows)) ((==_iff q.id id).0 e) d.0),
  )
  | inr e ↦ (
    (λ u. ground (arith, u, e)),
    row_by_id-only Q id rows r d.1 (if_some-false (q.id == id) q r (row_by_id id rows) h e) p,
  )
]
