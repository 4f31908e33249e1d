-- ===== src/Runtime/Observation.antt =====
-- `completion_check` of crates/lucy-runtime/src/observation.rs: the grade of a claim that the goal is
-- done, by the checks that ran.
use lucy.Prelude.{
  ℕ, ◌≡◌, Bool, true, false, Option, none, some, List, [], ◌∷◌, ◌++◌, ◌==◌, ltb, leb, length, take,
  keep, any, if◌then◌else◌, arith,
}
use lucy.Text.{Text, codes, is_empty, split_whitespace, join}
use lucy.Text.Decimal.{show_u32}

-- The check holds, does not hold, or could not run.
pub data ProbeVerdict : Type 0 where
  holds refused unavailable : ProbeVerdict

abbrev pub from_option : Option Bool → ProbeVerdict
from_option (some true) = holds
from_option (some false) = refused
from_option none = unavailable

unfoldable pub as_option : ProbeVerdict → Option Bool
as_option holds = some true
as_option refused = some false
as_option unavailable = none

pub record Completion : Type 0 where
  pub is_done : Bool
  pub reason : Text

abbrev pub is_holds : ProbeVerdict → Bool
is_holds holds = true
is_holds v = false

abbrev is_unavailable : ProbeVerdict → Bool
is_unavailable unavailable = true
is_unavailable v = false

abbrev or_goal : Text → Text
or_goal flat = if is_empty flat then codes "the goal" else flat

abbrev ellipsis : ℕ
ellipsis = 0x2026

abbrev shortened : Text → Text
shortened subject = if leb (length subject) 120 then subject else take 119 subject ++ ellipsis ∷ []

unfoldable pub subject_of : Text → Text
subject_of text = shortened (or_goal (join (codes " ") (split_whitespace text)))

abbrev not_done : Text → Completion
not_done reason = record { is_done = false; reason = reason }

abbrev unheld : Text → ℕ → ℕ → Completion
unheld subject checks missing =
    if ltb 0 missing
    then if checks == missing
      then not_done
          (codes "nothing could be evaluated for " ++ (subject ++ codes ": the check did not run"))
      else not_done (
          codes "the page's own state does not confirm "
          ++ (subject
              ++ (codes ": a page probe returned false ("
                  ++ (show_u32 missing ++ codes " further check(s) could not be evaluated)"))))
    else not_done (
        codes "the page's own state does not confirm "
        ++ (subject ++ codes ": a page probe returned false"))

unfoldable pub completion_check : Text → List ProbeVerdict → Completion
completion_check text probes =
    if any is_holds probes
    then record {
      is_done = true;
      reason =
          codes "the page's own state confirms "
          ++ (subject_of text ++ codes " (a page probe returned true)");
    }
    else unheld (subject_of text) (length probes) (length (keep is_unavailable probes))

-- A claim is graded done exactly if some check ran and held.
pub is_done-completion_check :
    (text : Text) (probes : List ProbeVerdict)
    → (completion_check text probes).is_done ≡ any is_holds probes
unfolding completion_check
is_done-completion_check text probes = ground arith
