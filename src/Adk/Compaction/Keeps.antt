-- ===== src/Adk/Compaction/Keeps.antt =====
-- What a compaction keeps, and what it loses.
use lucy.Prelude.{
  ℕ, ◌+◌, ◌-◌, ◌≤◌, ◌<◌, ◌≡◌, refl, Bool, false, not, Option, none, some, List, [], ◌∷◌, min,
  length, take, drop, keep, any, arith, length-keep_le, length-drop, length-take,
}
use lucy.Text.{Text, text_eq, trim}
use lucy.Adk.Compaction.{
  TurnMessage, user, assistant, tool, is_tool, should_compact, recent_turns, apply_compaction,
  render_compact_prompt, summarize_with, prompt_of, usable, after_prompt,
}

module _ {V : Type 0} where
  length-recent_turns :
      (history : List (TurnMessage V)) (n : ℕ) → length (recent_turns history n) ≤ n
  unfolding recent_turns
  length-recent_turns history n =
      let older = length history - min n (length history) in
      omega (
        arith,
        length-keep_le (λ t. not (is_tool t)) (drop older history),
        length-drop {0} older history,
      )

  -- When fewer turns are kept than trigger a compaction, a compacted history does not trigger another
  -- one; it has at most one turn more than are kept, and the lengths reported are those before and after.
  pub apply_compaction_settles :
      (history : List (TurnMessage V)) (summary : Text) (n trigger : ℕ)
      → n < trigger
      → (should_compact (apply_compaction history summary n).0 trigger ≡ false)
        × (length (apply_compaction history summary n).0 ≤ n + 1)
        × ((apply_compaction history summary n).1.before ≡ length history)
        × ((apply_compaction history summary n).1.after
            ≡ length (apply_compaction history summary n).0)
  unfolding should_compact apply_compaction
  apply_compaction_settles history summary n trigger h = (
    ground (arith, length-recent_turns history n),
    omega (arith, length-recent_turns history n),
    refl,
    refl,
  )

  -- the turn calls a tool under the id
  abbrev pub calls : Text → TurnMessage V → Bool
  calls id (assistant a) = any (λ c. text_eq c.id id) a.tool_calls
  calls id t = false

  -- the turn is the result of the call of that id
  abbrev pub answers : Text → TurnMessage V → Bool
  answers id (tool r) = text_eq r.call_id id
  answers id t = false

  calls-keep :
      (id : Text) (ts : List (TurnMessage V))
      → any (calls id) (keep (λ t. not (is_tool t)) ts) ≡ any (calls id) ts
  calls-keep id [] = refl
  calls-keep id (user t ∷ ts) = calls-keep id ts
  calls-keep id (assistant a ∷ ts) = ground (arith, calls-keep id ts)
  calls-keep id (tool r ∷ ts) = calls-keep id ts

  answers-keep :
      (id : Text) (ts : List (TurnMessage V))
      → any (answers id) (keep (λ t. not (is_tool t)) ts) ≡ false
  answers-keep id [] = refl
  answers-keep id (user t ∷ ts) = answers-keep id ts
  answers-keep id (assistant a ∷ ts) = answers-keep id ts
  answers-keep id (tool r ∷ ts) = answers-keep id ts

  -- A compaction keeps every tool call of the turns that it keeps, and drops the results of all of them:
  -- a call is in the compacted history if and only if it is in the last turns, and no call has a result
  -- there.
  pub apply_compaction_drops_results :
      (history : List (TurnMessage V)) (summary id : Text) (n : ℕ)
      → (any (calls id) (apply_compaction history summary n).0
          ≡ any (calls id) (drop (length history - min n (length history)) history))
        × (any (answers id) (apply_compaction history summary n).0 ≡ false)
  unfolding apply_compaction recent_turns
  apply_compaction_drops_results history summary id n =
      let older = length history - min n (length history) in
      (calls-keep id (drop older history), answers-keep id (drop older history))

usable_bounds :
    (o : Option Text) (s : Text) → usable o ≡ some s → (0 < length s) × (length s ≤ 4000)
usable_bounds none s h = cc
usable_bounds (some t) s h = ground (arith, length-take {0} 4000 (trim t))

module _ {V : Type 0} (show_value : V → Text) where
  prompt_older :
      (complete : Text → Option Text) (older : List (TurnMessage V)) (s : Text)
      → after_prompt complete (prompt_of show_value older) ≡ some s
      → (0 < length older) × (0 < length s) × (length s ≤ 4000)
  prompt_older complete [] s h = cc
  prompt_older complete (t ∷ ts) s h =
      let b = usable_bounds (complete _) s h in (omega arith, b.0, b.1)

  -- Whatever the model answers, a summary is made only if there are turns older than those kept, and it
  -- is neither empty nor longer than 4000 characters.
  pub summarize_with_bounds :
      (history : List (TurnMessage V)) (n : ℕ) (complete : Text → Option Text) (s : Text)
      → summarize_with show_value history n complete ≡ some s
      → (n < length history) × (0 < length s) × (length s ≤ 4000)
  unfolding summarize_with render_compact_prompt
  summarize_with_bounds history n complete s h =
      let older = length history - min n (length history) in
      let bounds = prompt_older complete (take older history) s h in
      (omega (arith, bounds.0, length-take {0} older history), bounds.1, bounds.2)
