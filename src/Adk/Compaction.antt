-- ===== src/Adk/Compaction.antt =====
-- crates/lucy-adk/src/compaction.rs, and the turns of crates/lucy-core/src/lib.rs. JSON values are a
-- parameter, with their text; the model that writes the summary is a function that may fail.
pub mod Keeps
use lucy.Prelude.{
  ℕ, ◌-◌, ◌≡◌, Bool, true, false, ◌&&◌, not, Option, none, some, List, [], ◌∷◌, ◌++◌, min, ltb,
  length, take, drop, keep, if◌then◌else◌,
}
use lucy.Text.{Text, codes, trim, is_empty}
use lucy.Text.Decimal.{show_u32}

pub record ToolCall (Value : Type 0) : Type 0 where
  pub id : Text
  pub name : Text
  pub input : Value

pub record ToolResult (Value : Type 0) : Type 0 where
  pub call_id : Text
  pub name : Text
  pub output : Value
  pub is_error : Bool

pub record AssistantTurn (Value : Type 0) : Type 0 where
  pub text : Option Text
  pub tool_calls : List (ToolCall Value)

pub data TurnMessage (Value : Type 0) : Type 0 where
  user : Text → TurnMessage Value
  assistant : AssistantTurn Value → TurnMessage Value
  tool : ToolResult Value → TurnMessage Value

pub record Compaction : Type 0 where
  pub summary : Text
  pub before : ℕ
  pub after : ℕ

abbrev pub is_tool : {V : Type 0} → TurnMessage V → Bool
is_tool (tool r) = true
is_tool t = false

abbrev text_or_call : Option Text → Text
text_or_call none = codes "(tool call)"
text_or_call (some t) = t

abbrev usable : Option Text → Option Text
usable none = none
usable (some s) = if is_empty (trim s) then none else some (take 4000 (trim s))

abbrev after_prompt : (Text → Option Text) → Option Text → Option Text
after_prompt complete none = none
after_prompt complete (some p) = usable (complete p)

module _ {V : Type 0} where
  unfoldable pub should_compact : List (TurnMessage V) → ℕ → Bool
  should_compact history trigger = ltb 0 trigger && ltb trigger (length history)

  abbrev heading : List (TurnMessage V) → List (TurnMessage V) → Text → Text
  heading anchor recent summary =
      codes "[compacted "
      ++ (show_u32 (length anchor)
          ++ (codes " earlier turn(s)]\n\n"
              ++ (summary
                  ++ (codes "\n\n(kept "
                      ++ (show_u32 (length recent) ++ codes " recent turn(s) verbatim)")))))

  abbrev summary_turn : Text → TurnMessage V
  summary_turn s = assistant (record { text = some s; tool_calls = [] })

  -- the turns that stay: of the last `n`, those that are no results of tools
  unfoldable pub recent_turns : List (TurnMessage V) → ℕ → List (TurnMessage V)
  recent_turns history n =
      keep (λ t. not (is_tool t)) (drop (length history - min n (length history)) history)

  unfoldable pub apply_compaction :
      List (TurnMessage V) → Text → ℕ → List (TurnMessage V) × Compaction
  unfolding recent_turns
  apply_compaction history summary n =
      let recent = recent_turns history n in
      let split = length history - min n (length history) in
      let compacted = summary_turn (heading (take split history) recent summary) ∷ recent in
      (compacted, record { summary = summary; before = length history; after = length compacted })

module _ {V : Type 0} (show_value : V → Text) where
  abbrev render_turn : TurnMessage V → Text
  render_turn (user t) = codes "user: " ++ t
  render_turn (assistant a) = codes "assistant: " ++ text_or_call a.text
  render_turn (tool r) = codes "tool " ++ (r.name ++ (codes ": " ++ show_value r.output))

  abbrev render_turns : List (TurnMessage V) → Text
  render_turns [] = []
  render_turns (t ∷ ts) = render_turn t ++ codes "\n" ++ render_turns ts

  abbrev prompt_of : List (TurnMessage V) → Option Text
  prompt_of [] = none
  prompt_of (t ∷ ts) = some (
      codes "Conversation so far:\n\n"
      ++ (render_turns (t ∷ ts) ++ codes "\nWrite the continuation summary now."))

  unfoldable pub render_compact_prompt : List (TurnMessage V) → ℕ → Option Text
  render_compact_prompt history n =
      prompt_of (take (length history - min n (length history)) history)

  unfoldable pub summarize_with : List (TurnMessage V) → ℕ → (Text → Option Text) → Option Text
  unfolding render_compact_prompt
  summarize_with history n complete = after_prompt complete (render_compact_prompt history n)
