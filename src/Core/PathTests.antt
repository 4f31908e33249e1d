-- ===== src/Core/PathTests.antt =====
-- Paths in a small file system: the directories "/" and "/work", and in the second a link whose target
-- is not there.
use lucy.Prelude.{
  ◌≡◌, refl, true, false, Bool, Option, none, some, List, [], ◌∷◌, ◌||◌, All, ok, err,
}
use mathlib.Core.Path.{subst}
use lucy.Text.{codes}
use lucy.Core.Paths.{
  Component, normal, parent_dir, Absolute, PathText, FileSystem, path_eq, resolve_path_checked,
  outside, from_ancestor,
}
use lucy.Core.Paths.Within.{IsNormal, Inside, Canonical, resolve_path_checked-Inside}

abbrev work : Absolute
work = normal (codes "work") ∷ []

abbrev is_top : Absolute → Bool
is_top p = path_eq p [] || path_eq p (parent_dir ∷ work)

abbrev answer : Bool → Bool → Option Absolute
answer true b = some []
answer false true = some work
answer false false = none

abbrev disk : FileSystem
disk = record {
  current_dir = some work;
  canonicalize = λ p. answer (is_top p) (path_eq p work);
  exists = λ p. is_top p || path_eq p work;
}

some_same : {p q : Absolute} → some p ≡ some q → p ≡ q
some_same h = cc

answer-IsNormal : (a b : Bool) (q : Absolute) → answer a b ≡ some q → All IsNormal q
answer-IsNormal true b q h = subst (All IsNormal) (some_same h) tt
answer-IsNormal false true q h = subst (All IsNormal) (some_same h) (tt, tt)
answer-IsNormal false false q h = absurd (no_answer h)
  where
    no_answer : {r : Absolute} → ¬ (none ≡ some r)
    no_answer e = cc

disk-Canonical : Canonical disk
disk-Canonical p q h = answer-IsNormal (is_top p) (path_eq p work) q h

abbrev relative : List Component → PathText
relative cs = record { is_absolute = false; components = cs }

abbrev link : Component
link = normal (codes "link")

-- The link's target is not there, so the link counts as a file that is yet to be made.
dangling_link : resolve_path_checked disk none (relative (link ∷ [])) ≡ ok (link ∷ work)
unfolding resolve_path_checked from_ancestor
dangling_link = refl

climbing : resolve_path_checked disk none (relative (link ∷ parent_dir ∷ [])) ≡ err outside
unfolding resolve_path_checked from_ancestor
climbing = refl

resolve_path_checked-Inside_example : Inside disk none (link ∷ work)
resolve_path_checked-Inside_example =
    resolve_path_checked-Inside disk none (relative (link ∷ [])) (link ∷ work) disk-Canonical
      dangling_link
