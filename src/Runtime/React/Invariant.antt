-- ===== src/Runtime/React/Invariant.antt =====
-- What holds of a run of the ReAct loop while it goes on, and what holds when it is over.
use lucy.Prelude.{
  ℕ, zero, suc, ◌+◌, ◌≤◌, ◌<◌, ◌≡◌, ◌≢◌, refl, Bool, true, false, Option, none, some, List, [], ◌∷◌,
  All, arith, ◌==◌, ==_iff, ap, Bool-cases, inl, inr, leb-false→lt, if◌then◌else◌,
}
use lucy.Text.{Text, trim, is_empty}
use lucy.Runtime.Observation.{from_option, completion_check, is_done-completion_check}
use lucy.Runtime.React.{
  ReactBudget, ReactStop, complete, budget_exhausted, interrupted, DecisionCall, Decision, Env,
  Message, decided, ReactRun, Flow, go_on, cancelled, next_tick, note, stopped, empty_reply_note,
}
use lucy.Runtime.React.Calls.{
  stop_if_spent, execute, observe_probe, verdict_of, grade_completion, count_claim, after_grade,
  failed, keep_or,
}
use lucy.Runtime.React.Loop.{
  count_decision, Continue, or_go_on, unless_spent, acted, claimed, act_on, decided_turn, decide,
  drive,
}
use lucy.Runtime.React.Flows.{
  Allowed, Earned, Going, Over, Flows, execute-Flows, observe_probe-Going,
}

keep_or-by :
    (b : Bool) (o : Option ReactStop)
    → o ≢ some complete
    → keep_or (if b then interrupted else budget_exhausted) o ≢ some complete
keep_or-by b none h = ground arith
keep_or-by b (some w) h = h

failed-Over :
    (env : Env) (most : ℕ) (s : ReactRun)
    → s.stats.llm_calls ≤ most
    → All (Allowed env) s.executed
    → s.stop ≢ some complete
    → Over env most (failed env s)
unfolding failed
failed-Over env most s l a c = (l, a, λ e. absurd (keep_or-by (env.is_set s.tick) s.stop c e))

-- what is left where the loop has ended; it has ended where there was fuel for it
abbrev pub Ended : Env → ℕ → Option ReactRun → Type 0
Ended env most none = ⊥
Ended env most (some s) = Over env most s

-- what the rest of the loop is assumed to do, once it has called the model `n` times
abbrev Proceeds : Env → ℕ → ℕ → Continue → Type 0
Proceeds env most n k = (s : ReactRun) → Going env n s → Ended env most (k s)

stopped-Over :
    (env : Env) (most n : ℕ) (w : ReactStop) (s : ReactRun)
    → Going env n s
    → n ≤ most
    → w ≢ complete
    → Over env most (stopped w s)
stopped-Over env most n w s g l c = ground (arith, c)

stop_if_spent-incomplete :
    (env : Env) (b : ReactBudget) (s : ReactRun) (w : ReactStop)
    → stop_if_spent env b s ≡ some w
    → w ≢ complete
unfolding stop_if_spent
stop_if_spent-incomplete env b s w h = ground arith

stop_if_spent-lt :
    (env : Env) (b : ReactBudget) (s : ReactRun)
    → stop_if_spent env b s ≡ none
    → s.stats.llm_calls < b.max_llm_calls
unfolding stop_if_spent
stop_if_spent-lt env b s h = grind (arith, leb-false→lt)

or_go_on-Ended :
    (env : Env) (b : ReactBudget) (n : ℕ) (k : Continue) (s : ReactRun) (o : Option ReactStop)
    → Going env n s
    → n ≤ b.max_llm_calls
    → stop_if_spent env b s ≡ o
    → (n < b.max_llm_calls → Proceeds env b.max_llm_calls n k)
    → Ended env b.max_llm_calls (or_go_on k s o)
or_go_on-Ended env b n k s none g l e h =
    h (omega (arith, stop_if_spent-lt env b s e, g.1)) (next_tick s) g
or_go_on-Ended env b n k s (some w) g l e h =
    stopped-Over env b.max_llm_calls n w s g l (stop_if_spent-incomplete env b s w e)

unless_spent-Ended :
    (env : Env) (b : ReactBudget) (n : ℕ) (k : Continue) (s : ReactRun)
    → Going env n s
    → n ≤ b.max_llm_calls
    → (n < b.max_llm_calls → Proceeds env b.max_llm_calls n k)
    → Ended env b.max_llm_calls (unless_spent env b k s)
unless_spent-Ended env b n k s g l h = or_go_on-Ended env b n k s (stop_if_spent env b s) g l refl h

acted-Ended :
    (env : Env) (b : ReactBudget) (n : ℕ) (k : Continue) (d : Decision) (f : Flow)
    → Flows env n f
    → n ≤ b.max_llm_calls
    → (n < b.max_llm_calls → Proceeds env b.max_llm_calls n k)
    → Ended env b.max_llm_calls (acted env b k d f)
acted-Ended env b n k d (cancelled s) (c, e, a) l h =
    failed-Over env b.max_llm_calls s (omega (arith, e, l)) a (λ q. ground (arith, q, c))
acted-Ended env b n k d (go_on s) g l h =
    unless_spent-Ended env b n k (observe_probe env d.probe s)
      (observe_probe-Going env n d.probe s g) l h

is_done-from_option :
    (text : Text) (v : Option Bool)
    → (completion_check text (from_option v ∷ [])).is_done ≡ true
    → v ≡ some true
is_done-from_option text v h = ground (arith, h, is_done-completion_check text (from_option v ∷ []))

-- what the grade of a claim leaves
abbrev Grades : Env → ℕ → Flow → Type 0
Grades env n (go_on s) = Going env n s
Grades env n (cancelled s) = (s.stats.llm_calls ≡ n) × All (Allowed env) s.executed × Earned env s

after_grade-Grades :
    (env : Env) (n : ℕ) (confirmed vacuous : Bool) (s : ReactRun)
    → Going env n s
    → (confirmed ≡ true → vacuous ≡ false → Earned env s)
    → Grades env n (after_grade confirmed vacuous s)
after_grade-Grades env n true false s g h = (g.1, g.2, h refl refl)
after_grade-Grades env n true true s g h = g
after_grade-Grades env n false v s g h = g

grade_completion-Grades :
    (env : Env) (n : ℕ) (d : Decision) (rest : List Message) (s : ReactRun)
    → Going env n s
    → s.messages ≡ decided d ∷ rest
    → Grades env n (grade_completion env d s)
unfolding grade_completion
grade_completion-Grades env n d rest s g m =
    let v = verdict_of env d s.tick in
    let confirmed = (completion_check (trim d.thought) (from_option v ∷ [])).is_done in
    after_grade-Grades env n confirmed (s.stats.tool_calls == 0) (count_claim confirmed d s) g
      (λ c z. (d, rest, s.tick, m, is_done-from_option (trim d.thought) v c, grind (arith, ==_iff)))

claimed-Ended :
    (env : Env) (b : ReactBudget) (n : ℕ) (k : Continue) (f : Flow)
    → Grades env n f
    → n ≤ b.max_llm_calls
    → (n < b.max_llm_calls → Proceeds env b.max_llm_calls n k)
    → Ended env b.max_llm_calls (claimed env b k f)
claimed-Ended env b n k (cancelled s) (e, a, c) l h = (omega (arith, e, l), a, λ q. c)
claimed-Ended env b n k (go_on s) g l h = unless_spent-Ended env b n k s g l h

act_on-Ended :
    (env : Env) (b : ReactBudget) (n : ℕ) (k : Continue) (d : Decision) (calls : List DecisionCall)
    (rest : List Message) (s : ReactRun)
    → Going env n s
    → s.messages ≡ decided d ∷ rest
    → n ≤ b.max_llm_calls
    → Proceeds env b.max_llm_calls n k
    → Ended env b.max_llm_calls (act_on env b k d calls s)
act_on-Ended env b n k d (call ∷ calls) rest s g m l h =
    acted-Ended env b n k d (execute env (call ∷ calls) s) (execute-Flows env n (call ∷ calls) s g)
      l (λ q. h)
act_on-Ended env b n k d [] rest s g m l h = elim (Bool-cases (is_empty (trim d.thought))) [
  | inl e ↦ rw e (h (note empty_reply_note s) g)
  | inr e ↦ rw e (
      claimed-Ended env b n k (grade_completion env d s)
        (grade_completion-Grades env n d rest s g m) l (λ q. h))
]

decided_turn-Ended :
    (env : Env) (b : ReactBudget) (n : ℕ) (k : Continue) (s : ReactRun) (o : Option Decision)
    → Going env n s
    → n ≤ b.max_llm_calls
    → Proceeds env b.max_llm_calls n k
    → Ended env b.max_llm_calls (decided_turn env b k s o)
decided_turn-Ended env b n k s none g l h = elim (Bool-cases (env.is_set s.tick)) [
  | inl e ↦ rw e (
      failed-Over env b.max_llm_calls (stopped interrupted s) (omega (arith, g.1, l)) g.2
        (λ q. ground (arith, q)))
  | inr e ↦
      rw e (
        failed-Over env b.max_llm_calls s (omega (arith, g.1, l)) g.2 (λ q. ground (arith, q, g.0)))
]
decided_turn-Ended env b n k s (some d) g l h =
    act_on-Ended env b n k d d.tool_calls s.messages (next_tick (note (decided d) s)) g refl l h

-- with fuel for the calls of the model that are left, and for the round that finds none left
pub drive-Ended :
    (fuel n : ℕ) (env : Env) (b : ReactBudget) (s : ReactRun)
    → Going env n s
    → n ≤ b.max_llm_calls
    → b.max_llm_calls < n + fuel
    → Ended env b.max_llm_calls (drive fuel env b s)
unfolding drive decide
drive-Ended zero n env b s g l h = absurd (omega arith)
drive-Ended (suc fuel) n env b s g l h =
    unless_spent-Ended env b n (decide env b (drive fuel env b)) s g l (λ q s' g'.
      decided_turn-Ended env b (suc n) (drive fuel env b) (count_decision s')
        (env.complete_turn s'.tick) (g'.0, ap suc g'.1, g'.2) q
        (λ s'' g''. drive-Ended fuel (suc n) env b s'' g'' q (omega (arith, h))))
