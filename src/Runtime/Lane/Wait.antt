-- ===== src/Runtime/Lane/Wait.antt =====
-- `wait_for` of crates/lucy-runtime/src/fast_perception.rs: one wait as a series of short polls.
use lucy.Prelude.{
  ℕ, zero, suc, ◌+◌, ◌-◌, ◌≤◌, ◌<◌, ◌≡◌, Bool, true, false, List, [], ◌∷◌, arith, min, All, ◌==◌,
  Bool-cases, inl, inr, if◌then◌else◌,
}

abbrev pub longest_slice : ℕ
longest_slice = 3000

abbrev ladder : List ℕ
ladder = 250 ∷ 750 ∷ 1500 ∷ longest_slice ∷ []

-- `while left > 0`, with fuel for each poll
unfoldable pub remaining_slices : ℕ → ℕ → List ℕ
remaining_slices zero left = []
remaining_slices (suc fuel) left =
    let slice = min left longest_slice in
    let rest = remaining_slices fuel (left - slice) in if left == 0 then [] else slice ∷ rest

-- a step of the ladder for each poll, and then the longest ones
unfoldable pub ladder_slices : List ℕ → ℕ → List ℕ
unfolding remaining_slices
ladder_slices [] left = remaining_slices left left
ladder_slices (step ∷ steps) left =
    let slice = min step left in
    let rest = ladder_slices steps (left - slice) in if left == 0 then [] else slice ∷ rest

unfoldable pub settle_slices : ℕ → List ℕ
unfolding ladder_slices
settle_slices total_ms = ladder_slices ladder total_ms

-- `wait_once` is the page's, by the poll
abbrev pub wait_slices : (ℕ → ℕ → Bool) → ℕ → List ℕ → Bool
wait_slices wait_once t [] = false
wait_slices wait_once t (slice ∷ slices) =
    if wait_once t slice then true else wait_slices wait_once (suc t) slices

unfoldable pub wait_for : (ℕ → ℕ → Bool) → ℕ → Bool
unfolding settle_slices
wait_for wait_once timeout_ms = wait_slices wait_once 0 (settle_slices timeout_ms)

abbrev pub sum_of : List ℕ → ℕ
sum_of [] = 0
sum_of (x ∷ xs) = x + sum_of xs

-- a poll is neither empty nor longer than the longest step
abbrev pub IsSlice : ℕ → Type 0
IsSlice n = (0 < n) × (n ≤ longest_slice)

remaining_slices-sum :
    (fuel left : ℕ)
    → left ≤ fuel
    → (sum_of (remaining_slices fuel left) ≡ left) × All IsSlice (remaining_slices fuel left)
unfolding remaining_slices
remaining_slices-sum zero left h = (omega (arith, h), tt)
remaining_slices-sum (suc fuel) left h = elim (Bool-cases (left == 0)) [
  | inl e ↦ rw e (ground (arith, e), tt)
  | inr e ↦ rw e (
      let slice = min left longest_slice in
      let pos : 0 < left = ground (arith, e) in
      let rest = remaining_slices-sum fuel (left - slice) (omega (arith, h, pos)) in
      (omega (arith, rest.0), ((omega (arith, pos), omega arith), rest.1)))
]

ladder_slices-sum :
    (steps : List ℕ) (left : ℕ)
    → All IsSlice steps
    → (sum_of (ladder_slices steps left) ≡ left) × All IsSlice (ladder_slices steps left)
unfolding ladder_slices
ladder_slices-sum [] left h = remaining_slices-sum left left (omega arith)
ladder_slices-sum (step ∷ steps) left h = elim (Bool-cases (left == 0)) [
  | inl e ↦ rw e (ground (arith, e), tt)
  | inr e ↦ rw e (
      let slice = min step left in
      let pos : 0 < left = ground (arith, e) in
      let rest = ladder_slices-sum steps (left - slice) h.1 in
      (omega (arith, rest.0), ((omega (arith, pos, h.0.0), omega (arith, h.0.1)), rest.1)))
]

-- The polls of a wait add up to its budget, whatever it is, and each of them is longer than nothing and at
-- most three seconds long.
pub settle_slices-sum :
    (total : ℕ) → (sum_of (settle_slices total) ≡ total) × All IsSlice (settle_slices total)
unfolding settle_slices
settle_slices-sum total = ladder_slices-sum ladder total (
  (omega arith, omega arith),
  ((omega arith, omega arith), ((omega arith, omega arith), ((omega arith, omega arith), tt))),
)
