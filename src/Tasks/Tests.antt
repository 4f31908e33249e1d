-- ===== src/Tasks/Tests.antt =====
-- The task table and the reminders at concrete inputs.
use lucy.Prelude.{◌+◌, ◌≡◌, refl, some, List, [], ◌∷◌}
use lucy.Text.{Text, codes, text_eq, split}
use lucy.Tasks.Store.{Task, new_task, completed}
use lucy.Core.Truncate.{lines}
use lucy.Tasks.Diff.{compute_diff, diff_lines, is_similar}
use lucy.Tasks.Diff.Balance.{count, new_lines, old_lines, compute_diff_balances}

abbrev rent : Task
rent = record (new_task 1 (codes "rent") 50) { due_at = some 90 }

abbrev call : Task
call = record (new_task 2 (codes "call") 60) { due_at = some 400 }

abbrev table : List Task
table = call ∷ rent ∷ []

abbrev paid : Task
paid = record rent { status = completed; completed_at = some 95 }

abbrev old_page : Text
old_page = codes "news\nprice 10\nend"

abbrev new_page : Text
new_page = codes "news\nprice 12\nend\nmore"

page_diff_test : compute_diff old_page new_page ≡ record {
  added = codes "more" ∷ [];
  removed = [];
  modified = (codes "price 10", codes "price 12") ∷ [];
}
unfolding compute_diff diff_lines lines split is_similar
page_diff_test = refl

compute_diff_balances_example :
    (count (text_eq (codes "end")) (lines old_page)
      + (count (text_eq (codes "end")) (compute_diff old_page new_page).added
          + count (text_eq (codes "end")) (new_lines (compute_diff old_page new_page).modified)))
    ≡ (count (text_eq (codes "end")) (lines new_page)
        + (count (text_eq (codes "end")) (compute_diff old_page new_page).removed
            + count (text_eq (codes "end")) (old_lines (compute_diff old_page new_page).modified)))
compute_diff_balances_example = compute_diff_balances (text_eq (codes "end")) old_page new_page
