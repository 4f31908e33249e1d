-- ===== src/Adk/Tests.antt =====
-- Compaction of a short history.
use lucy.Prelude.{◌≤◌, ◌≡◌, true, false, none, List, [], ◌∷◌, length, any, arith}
use lucy.Text.{Text, codes}
use lucy.Adk.Compaction.{TurnMessage, user, assistant, tool, should_compact, apply_compaction}
use lucy.Adk.Compaction.Keeps.{
  calls, answers, apply_compaction_settles, apply_compaction_drops_results,
}

-- A question, and a tool call with its result. A value is its text.
abbrev history : List (TurnMessage Text)
history =
    user (codes "hello")
    ∷ user (codes "list the files")
    ∷ assistant (record {
      text = none;
      tool_calls = record { id = codes "c"; name = codes "ls"; input = [] } ∷ [];
    })
    ∷ tool (record {
      call_id = codes "c";
      name = codes "ls";
      output = codes "a.txt";
      is_error = false;
    })
    ∷ []

apply_compaction_settles_example :
    (should_compact (apply_compaction history (codes "s") 2).0 3 ≡ false)
    × (length (apply_compaction history (codes "s") 2).0 ≤ 3)
    × ((apply_compaction history (codes "s") 2).1.before ≡ 4)
    × ((apply_compaction history (codes "s") 2).1.after
        ≡ length (apply_compaction history (codes "s") 2).0)
apply_compaction_settles_example = apply_compaction_settles history (codes "s") 2 3 (omega arith)

apply_compaction_drops_results_example :
    (any (calls (codes "c")) (apply_compaction history (codes "s") 2).0 ≡ true)
    × (any (answers (codes "c")) (apply_compaction history (codes "s") 2).0 ≡ false)
apply_compaction_drops_results_example =
    apply_compaction_drops_results history (codes "s") (codes "c") 2
