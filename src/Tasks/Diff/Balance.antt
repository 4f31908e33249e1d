-- ===== src/Tasks/Diff/Balance.antt =====
-- The comparison accounts for every line, and finds nothing between equal texts.
use lucy.Prelude.{
  ℕ, zero, suc, ◌+◌, ◌≤◌, ◌≡◌, refl, Bool, List, [], ◌∷◌, length, arith, if◌then◌else◌,
}
use lucy.Text.{Text}
use lucy.Text.Equality.{text_eq_self, eq_of_text_eq}
use lucy.Core.Truncate.{lines}
use lucy.Tasks.Diff.{
  PageDiff, Move, same, removes, adds, move, note_move, old_step, new_step, old_after, new_after,
  walk, pair_move, note_pair, pair_up, pair_all, lcs_table, diff_lines, compute_diff,
}

-- How many lines pass the test.
abbrev pub count : (Text → Bool) → List Text → ℕ
count p [] = 0
count p (x ∷ xs) = (if p x then 1 else 0) + count p xs

move-same : (lcs : List (List ℕ)) (i j : ℕ) (o n : Text) → move lcs i j o n ≡ same → o ≡ n
move-same lcs i j o n h = ground (arith, eq_of_text_eq o n)

Balanced : (Text → Bool) → List Text → List Text → List Text × List Text → Type 0
Balanced p old new (added, removed) = count p old + count p added ≡ count p new + count p removed

note_move-Balanced :
    (p : Text → Bool) (m : Move) (o n : Text) (os ns : List Text) (r : List Text × List Text)
    → (m ≡ same → o ≡ n)
    → Balanced p (old_after m o os) (new_after m n ns) r
    → Balanced p (o ∷ os) (n ∷ ns) (note_move m o n r)
unfolding Balanced
note_move-Balanced p same o n os ns (a, r) e h = rw (e refl) (omega arith)
note_move-Balanced p removes o n os ns (a, r) e h = omega arith
note_move-Balanced p adds o n os ns (a, r) e h = omega arith

fuel_left :
    (m : Move) (o n : Text) (os ns : List Text) (fuel : ℕ)
    → length (o ∷ os) + length (n ∷ ns) ≤ suc fuel
    → length (old_after m o os) + length (new_after m n ns) ≤ fuel
fuel_left same o n os ns fuel h = omega arith
fuel_left removes o n os ns fuel h = omega arith
fuel_left adds o n os ns fuel h = omega arith

walk-Balanced :
    (p : Text → Bool) (fuel : ℕ) (lcs : List (List ℕ)) (i j : ℕ) (old new : List Text)
    → length old + length new ≤ fuel
    → Balanced p old new (walk fuel lcs i j old new)
unfolding walk Balanced
walk-Balanced p fuel lcs i j [] new h = omega arith
walk-Balanced p fuel lcs i j (o ∷ os) [] h = omega arith
walk-Balanced p zero lcs i j (o ∷ os) (n ∷ ns) h = absurd (omega arith)
walk-Balanced p (suc fuel) lcs i j (o ∷ os) (n ∷ ns) h =
    let m = move lcs i j o n in
    note_move-Balanced p m o n os ns _ (move-same lcs i j o n) (
      walk-Balanced p fuel lcs (i + old_step m) (j + new_step m) (old_after m o os)
        (new_after m n ns) (fuel_left m o n os ns fuel h))

abbrev pub old_lines : List (Text × Text) → List Text
old_lines [] = []
old_lines ((o, n) ∷ ms) = o ∷ old_lines ms

abbrev pub new_lines : List (Text × Text) → List Text
new_lines [] = []
new_lines ((o, n) ∷ ms) = n ∷ new_lines ms

-- the diff has these lines added and these removed
Accounts : (Text → Bool) → List Text → List Text → PageDiff → Type 0
Accounts p added removed d =
    (count p d.added + count p (new_lines d.modified) ≡ count p added)
    × (count p d.removed + count p (old_lines d.modified) ≡ count p removed)

note_pair-Accounts :
    (p : Text → Bool) (m : Move) (a r : Text) (as_ rs : List Text) (d : PageDiff)
    → Accounts p (new_after m a as_) (old_after m r rs) d
    → Accounts p (a ∷ as_) (r ∷ rs) (note_pair m a r d)
unfolding Accounts
note_pair-Accounts p same a r as_ rs d h = omega arith
note_pair-Accounts p removes a r as_ rs d h = omega arith
note_pair-Accounts p adds a r as_ rs d h = omega arith

pair_up-Accounts :
    (p : Text → Bool) (fuel : ℕ) (added removed : List Text)
    → length added + length removed ≤ fuel
    → Accounts p added removed (pair_up fuel added removed)
unfolding pair_up Accounts
pair_up-Accounts p fuel [] removed h = omega arith
pair_up-Accounts p fuel (a ∷ as_) [] h = omega arith
pair_up-Accounts p zero (a ∷ as_) (r ∷ rs) h = absurd (omega arith)
pair_up-Accounts p (suc fuel) (a ∷ as_) (r ∷ rs) h =
    let m = pair_move a r in
    note_pair-Accounts p m a r as_ rs _ (
      pair_up-Accounts p fuel (new_after m a as_) (old_after m r rs)
        (omega (arith, fuel_left m r a rs as_ fuel)))

balance :
    (p : Text → Bool) (old new : List Text) (w : List Text × List Text)
    → Balanced p old new w
    → (count p old + (count p (pair_all w).added + count p (new_lines (pair_all w).modified)))
      ≡ (count p new + (count p (pair_all w).removed + count p (old_lines (pair_all w).modified)))
unfolding Balanced Accounts
balance p old new (a, r) h =
    omega (arith, pair_up-Accounts p (length a + length r) a r (omega arith))

-- Every line is accounted for: of the lines that pass a test, those of the old text, with those reported
-- as added or as new in a modification, are as many as those of the new text, with those reported as
-- removed or as old in a modification.
pub compute_diff_balances :
    (p : Text → Bool) (old new : Text)
    → (count p (lines old)
        + (count p (compute_diff old new).added
            + count p (new_lines (compute_diff old new).modified)))
      ≡ (count p (lines new)
          + (count p (compute_diff old new).removed
              + count p (old_lines (compute_diff old new).modified)))
unfolding compute_diff diff_lines
compute_diff_balances p old new = balance p (lines old) (lines new) _ (
    walk-Balanced p (length (lines old) + length (lines new)) (lcs_table (lines old) (lines new)) 0
      0 (lines old) (lines new) (omega arith))

walk_self :
    (fuel : ℕ) (lcs : List (List ℕ)) (i j : ℕ) (s : List Text)
    → length s ≤ fuel
    → walk fuel lcs i j s s ≡ ([], [])
unfolding walk
walk_self fuel lcs i j [] h = refl
walk_self zero lcs i j (o ∷ os) h = absurd (omega arith)
walk_self (suc fuel) lcs i j (o ∷ os) h =
    rw (text_eq_self o) (rw (walk_self fuel lcs (i + 1) (j + 1) os (omega arith)) refl)

-- Between equal texts no difference is reported.
pub compute_diff_self :
    (s : Text) → compute_diff s s ≡ record { added = []; removed = []; modified = [] }
unfolding compute_diff diff_lines pair_up
compute_diff_self s =
    rw
      (walk_self (length (lines s) + length (lines s)) (lcs_table (lines s) (lines s)) 0 0 (lines s)
        (omega arith))
      refl
