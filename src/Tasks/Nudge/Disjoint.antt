-- ===== src/Tasks/Nudge/Disjoint.antt =====
-- No task is reminded of twice about its due date.
use lucy.Prelude.{
  ℕ, ◌≤◌, ◌≡◌, refl, Bool, true, false, ◌&&◌, List, [], ◌∷◌, ◌++◌, arith, if◌then◌else◌, any, ◌∙◌,
}
use lucy.Tasks.Store.{Task, overdue, due_soon, is_overdue, is_due_soon, is_open, list}
use lucy.Tasks.Store.Laws.{overdue_exact, any-due_soon}
use lucy.Tasks.Nudge.{
  Nudge, NudgeType, overdue_nudge, due_soon_nudge, stalled, nudges, overdue_nudges, due_soon_nudges,
  stalled_nudges, past,
}

-- the nudge is of that type, and about a task with that due date and open status
abbrev same_type : NudgeType → NudgeType → Bool
same_type overdue_nudge overdue_nudge = true
same_type due_soon_nudge due_soon_nudge = true
same_type stalled stalled = true
same_type _ _ = false

-- Some nudge of the type is about a task that passes the test.
abbrev pub nudged : NudgeType → (Task → Bool) → List Nudge → Bool
nudged k p = any (λ n. same_type n.nudge_type k && p n.task)

any-append {ℓ} :
    {A : Type ℓ} (p : A → Bool) (xs ys : List A)
    → any p (xs ++ ys) ≡ (if any p xs then true else any p ys)
any-append p [] ys = refl
any-append p (x ∷ xs) ys = ground (arith, any-append p xs ys)

nudged-overdue :
    (k : NudgeType) (p : Task → Bool) (now : ℕ) (ts : List Task)
    → nudged k p (overdue_nudges now ts) ≡ (same_type overdue_nudge k && any p ts)
unfolding overdue_nudges
nudged-overdue k p now [] = ground arith
nudged-overdue k p now (t ∷ ts) = ground (arith, nudged-overdue k p now ts)

nudged-due_soon :
    (k : NudgeType) (p : Task → Bool) (now : ℕ) (ts : List Task)
    → nudged k p (due_soon_nudges now ts)
      ≡ (same_type due_soon_nudge k && any (λ t. if past now t.due_at then false else p t) ts)
unfolding due_soon_nudges
nudged-due_soon k p now [] = ground arith
nudged-due_soon k p now (t ∷ ts) = ground (arith, nudged-due_soon k p now ts)

nudged-stalled :
    (k : NudgeType) (p : Task → Bool) (now : ℕ) (ts : List Task)
    → same_type stalled k ≡ false
    → nudged k p (stalled_nudges now ts) ≡ false
unfolding stalled_nudges
nudged-stalled k p now [] h = refl
nudged-stalled k p now (t ∷ ts) h = ground (arith, nudged-stalled k p now ts)

any-none {ℓ} :
    {A : Type ℓ} (p : A → Bool) (ts : List A) → ((t : A) → p t ≡ false) → any p ts ≡ false
any-none p [] h = refl
any-none p (t ∷ ts) h = ground (arith, h t, any-none p ts h)

not_both :
    (now a b : ℕ) (t : Task)
    → a ≤ b
    → (is_due_soon b 3600 t && (if past now t.due_at then false else is_overdue a t)) ≡ false
unfolding is_due_soon is_overdue is_open
not_both now a b t h = ground arith

nudged-nudges :
    (k : NudgeType) (p : Task → Bool) (now a b : ℕ) (ts : List Task)
    → same_type stalled k ≡ false
    → nudged k p (nudges now a b ts) ≡ (
        if same_type overdue_nudge k && any p (overdue a ts)
        then true
        else same_type due_soon_nudge k
          && any (λ t. if past now t.due_at then false else p t) (due_soon b 3600 ts))
unfolding nudges
nudged-nudges k p now a b ts h = ground (
  arith,
  any-append (λ n. same_type n.nudge_type k && p n.task) (overdue_nudges now (overdue a ts))
      (due_soon_nudges now (due_soon b 3600 ts) ++ stalled_nudges now (list ts)),
  any-append (λ n. same_type n.nudge_type k && p n.task) (due_soon_nudges now (due_soon b 3600 ts))
      (stalled_nudges now (list ts)),
  nudged-overdue k p now (overdue a ts),
  nudged-due_soon k p now (due_soon b 3600 ts),
  nudged-stalled k p now (list ts) h,
)

-- The reminders say that a task is overdue exactly for the open tasks whose due date was past when
-- `overdue` read the clock: a test holds of some task so reminded of if and only if it holds of some such
-- task of the table. When `due_soon` reads the clock no earlier, no such task is also reminded of as due
-- soon, whatever the clock of `nudges` itself said.
pub nudges_disjoint :
    (now at_overdue at_due_soon : ℕ) (p : Task → Bool) (ts : List Task)
    → at_overdue ≤ at_due_soon
    → (nudged overdue_nudge p (nudges now at_overdue at_due_soon ts)
        ≡ any (λ t. is_overdue at_overdue t && p t) ts)
      × (nudged due_soon_nudge (is_overdue at_overdue) (nudges now at_overdue at_due_soon ts)
          ≡ false)
nudges_disjoint now a b p ts h = (
  nudged-nudges overdue_nudge p now a b ts refl ∙ ground (arith, (overdue_exact a p ts).0),
  nudged-nudges due_soon_nudge (is_overdue a) now a b ts refl
      ∙ (any-due_soon b 3600 (λ t. if past now t.due_at then false else is_overdue a t) ts
          ∙ any-none
              (λ t. is_due_soon b 3600 t && (if past now t.due_at then false else is_overdue a t))
              ts (λ t. not_both now a b t h)),
)
