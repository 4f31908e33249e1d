-- ===== src/Runtime/Agent/Drive/Rounds.antt =====
-- What holds between the rounds of the agent loop, and that their fuel is enough.
use lucy.Prelude.{
  ℕ, zero, suc, ◌+◌, ◌*◌, ◌-◌, ◌≤◌, ◌<◌, ◌≡◌, ◌≢◌, ◌⊎◌, refl, sym, ◌∙◌, Bool, true, Option, none,
  some, List, [], ◌∷◌, ◌++◌, arith, length, length-append, leb, All, Bool-cases, inl, inr,
}
use mathlib.Core.List.{append_assoc}
use lucy.Text.{Text, trim}
use lucy.Text.Laws.{All-append}
use lucy.Runtime.Agent.{Objective, AgentBudget}
use lucy.Runtime.Agent.State.{
  Env, exit_satisfied, needs_replan, unproven, attempts_exhausted, act_budget_exhausted, AgentRun,
  Pursued, exits, cancelled, ask, count_vacuous,
}
use lucy.Runtime.Agent.Pursue.{pursue_with_origin}
use lucy.Runtime.Agent.Pursue.Evidence.{Evidence}
use lucy.Runtime.Agent.Pursue.Left.{Bounded}
use lucy.Runtime.Agent.Pursue.Ends.{Ends, pursue_with_origin-Ends}
use lucy.Runtime.Agent.Plan.{Planner, replan}
use lucy.Runtime.Agent.Plan.Spent.{IsShort, Replanned, replan-Replanned}
use lucy.Runtime.Agent.Drive.{
  Driven, ended, stopped, no_fuel, count_done, count_failed, with_total, Rounds, after_replan,
  after_pursue, rounds,
}

abbrev pub WithinBudget : AgentBudget → AgentRun → Type 0
WithinBudget b s =
    (s.stats.act_steps ≤ b.max_act_steps)
    × (s.stats.llm_calls ≤ b.max_llm_calls + 1)
    × (s.stats.recoveries ≤ b.max_recoveries)

-- Before each round: the budgets are kept, an objective that is counted was passed, the first one by an
-- act or by navigating, and as long as none failed the plan is as it was and what was passed is evident.
pub record Round (env : Env) (b : AgentBudget) (plan : List Objective) (navigated : Bool)
    (passed rest : List Objective) (s : AgentRun) : Type 0 where
  pub within : WithinBudget b s
  pub counted : s.stats.objectives_done ≤ length passed
  pub earned : 0 < s.stats.objectives_done → (0 < s.stats.act_steps) ⊎ (navigated ≡ true)
  pub unfailed :
      s.stats.objectives_failed ≡ [] → (passed ++ rest ≡ plan) × All (Evidence env) passed

append_ne : (xs : List Text) (x : Text) → xs ++ (x ∷ []) ≢ []
append_ne [] x h = ground (arith, h)
append_ne (y ∷ ys) x h = ground (arith, h)

module _ (env : Env) (b : AgentBudget) (p : Planner) (plan : List Objective)
    (navigated : Bool) where
  abbrev pub EndsWell : Driven → Type 0
  EndsWell (ended passed rest s) = Round env b plan navigated passed rest s
  EndsWell (stopped s) = WithinBudget b s
  EndsWell no_fuel = ⊥

  -- the rounds that the fuel is for
  abbrev To : ℕ → List Objective → AgentRun → Type 0
  To fuel rest s = length rest + 7 * (b.max_recoveries - s.stats.recoveries) < fuel

  abbrev Proceeds : ℕ → Rounds → Type 0
  Proceeds fuel k =
      (passed rest : List Objective) (s : AgentRun)
      → Round env b plan navigated passed rest s
      → To fuel rest s
      → EndsWell (k passed rest s)

  length-concat : (xs : List Objective) (o : Objective) → length (xs ++ (o ∷ [])) ≡ length xs + 1
  length-concat xs o = length-append xs (o ∷ [])

  by_act :
      (passed rest : List Objective) (o : Objective) (s0 s : AgentRun)
      → Round env b plan navigated passed (o ∷ rest) s0
      → Bounded env b o s0 s
      → (s0.stats.act_steps < s.stats.act_steps)
        ⊎ (navigated ≡ true)
        ⊎ (0 < s0.stats.objectives_done)
      → (0 < s.stats.act_steps) ⊎ (navigated ≡ true)
  by_act passed rest o s0 s r h (inl w) = inl (omega (arith, w))
  by_act passed rest o s0 s r h (inr (inl w)) = inr w
  by_act passed rest o s0 s r h (inr (inr w)) = still (r.earned w)
    where
      still :
          (0 < s0.stats.act_steps) ⊎ (navigated ≡ true)
          → (0 < s.stats.act_steps) ⊎ (navigated ≡ true)
      still (inl a) = inl (omega (arith, a, h.2))
      still (inr n) = inr n

  after_satisfied :
      (passed rest : List Objective) (o : Objective) (s0 s : AgentRun)
      → Round env b plan navigated passed (o ∷ rest) s0
      → Bounded env b o s0 s
      → Evidence env o
      → (s0.stats.act_steps < s.stats.act_steps)
        ⊎ (navigated ≡ true)
        ⊎ (0 < s0.stats.objectives_done)
      → Round env b plan navigated (passed ++ (o ∷ [])) rest (count_done s)
  after_satisfied passed rest o s0 s r h e w = record {
    within = (h.1, omega (arith, h.0.0, r.within.1), omega (arith, h.0.1, r.within.2));
    counted = omega (arith, length-concat passed o, h.0.2, r.counted);
    earned = λ _. by_act passed rest o s0 s r h w;
    unfailed = λ f. (
      append_assoc passed (o ∷ []) rest ∙ (r.unfailed (sym h.0.3 ∙ f)).0,
      All-append (Evidence env) passed (o ∷ []) (r.unfailed (sym h.0.3 ∙ f)).1 (e, tt),
    );
  }

  -- an objective that failed and was passed, or is replaced by revised ones
  after_failed :
      (passed rest passed' rest' : List Objective) (o : Objective) (s0 s s' : AgentRun)
      → Round env b plan navigated passed (o ∷ rest) s0
      → Bounded env b o s0 s
      → WithinBudget b s'
      → s'.stats.act_steps ≡ s.stats.act_steps
      → s'.stats.objectives_done ≡ s.stats.objectives_done
      → s'.stats.objectives_failed ≡ s.stats.objectives_failed ++ (trim o.description ∷ [])
      → length passed ≤ length passed'
      → Round env b plan navigated passed' rest' s'
  after_failed passed rest passed' rest' o s0 s s' r h w a d f l = record {
    within = w;
    counted = omega (arith, d, h.0.2, r.counted, l);
    earned = λ q. kept_earned (r.earned (omega (arith, q, d, h.0.2)));
    unfailed = λ e. absurd (append_ne (s.stats.objectives_failed) (trim o.description) (sym f ∙ e));
  }
    where
      kept_earned :
          (0 < s0.stats.act_steps) ⊎ (navigated ≡ true)
          → (0 < s'.stats.act_steps) ⊎ (navigated ≡ true)
      kept_earned (inl x) = inl (omega (arith, x, a, h.2))
      kept_earned (inr n) = inr n

  after_replan-EndsWell :
      (fuel : ℕ) (k : Rounds) (passed rest : List Objective) (o : Objective) (s0 s : AgentRun)
      (r : Option (List Objective) × AgentRun)
      → Proceeds fuel k
      → Round env b plan navigated passed (o ∷ rest) s0
      → Bounded env b o s0 s
      → Replanned b (count_failed o s) r
      → To (suc fuel) (o ∷ rest) s0
      → EndsWell (after_replan k passed o rest r)
  after_replan-EndsWell fuel k passed rest o s0 s (none, s') g r h q f =
      g (passed ++ (o ∷ [])) rest s'
        (after_failed passed rest (passed ++ (o ∷ [])) rest o s0 s s' r h
          (omega (arith, q.0, h.1), q.3, q.4) q.0 q.1 q.2 (omega (arith, length-concat passed o)))
        (omega (arith, f, q.5, h.0.1))
  after_replan-EndsWell fuel k passed rest o s0 s (some revised, s') g r h q f =
      let n = length (passed ++ revised) in
      let short = q.6 revised refl in
      g passed revised (with_total n s')
        (after_failed passed rest passed revised o s0 s (with_total n s') r h
          (omega (arith, q.0, h.1), q.3, q.4) q.0 q.1 q.2 (omega arith))
        (omega (arith, f, q.4, short.0, short.1, h.0.1))

  replanned-EndsWell :
      (fuel : ℕ) (k : Rounds) (passed rest : List Objective) (o : Objective) (s0 s : AgentRun)
      → IsShort p
      → Proceeds fuel k
      → Round env b plan navigated passed (o ∷ rest) s0
      → Bounded env b o s0 s
      → To (suc fuel) (o ∷ rest) s0
      → EndsWell (after_replan k passed o rest (replan env b p (count_failed o s)))
  replanned-EndsWell fuel k passed rest o s0 s q g r h f =
      let s' = count_failed o s in
      after_replan-EndsWell fuel k passed rest o s0 s (replan env b p s') g r h
        (replan-Replanned env b p s' q (omega (arith, h.0.0, r.within.1))
          (omega (arith, h.0.1, r.within.2)))
        f

  after_pursue-EndsWell :
      (fuel : ℕ) (k : Rounds) (passed rest : List Objective) (o : Objective) (s0 : AgentRun)
      (u : Pursued)
      → IsShort p
      → Proceeds fuel k
      → Round env b plan navigated passed (o ∷ rest) s0
      → Ends env b o navigated s0 u
      → To (suc fuel) (o ∷ rest) s0
      → EndsWell (after_pursue env b p k passed o rest u)
  after_pursue-EndsWell fuel k passed rest o s0 (cancelled s) q g r h f =
      (h.1, omega (arith, h.0.0, r.within.1), omega (arith, h.0.1, r.within.2))
  after_pursue-EndsWell fuel k passed rest o s0 (exits exit_satisfied s) q g r h f =
      g (passed ++ (o ∷ [])) rest (count_done s) (after_satisfied passed rest o s0 s r h.0 h.1 h.2)
        (omega (arith, f, h.0.0.1))
  after_pursue-EndsWell fuel k passed rest o s0 (exits unproven s) q g r h f =
      let s' = count_vacuous (count_failed o s) in
      g (passed ++ (o ∷ [])) rest s'
        (after_failed passed rest (passed ++ (o ∷ [])) rest o s0 s s' r h
          (h.1, omega (arith, h.0.0, r.within.1), omega (arith, h.0.1, r.within.2)) refl refl refl
          (omega (arith, length-concat passed o)))
        (omega (arith, f, h.0.1))
  after_pursue-EndsWell fuel k passed rest o s0 (exits (needs_replan w) s) q g r h f =
      replanned-EndsWell fuel k passed rest o s0 s q g r h f
  after_pursue-EndsWell fuel k passed rest o s0 (exits attempts_exhausted s) q g r h f =
      replanned-EndsWell fuel k passed rest o s0 s q g r h f
  after_pursue-EndsWell fuel k passed rest o s0 (exits act_budget_exhausted s) q g r h f =
      replanned-EndsWell fuel k passed rest o s0 s q g r h f

  pub rounds-EndsWell :
      (fuel : ℕ) (passed rest : List Objective) (s : AgentRun)
      → IsShort p
      → 1 ≤ b.max_repeats
      → Round env b plan navigated passed rest s
      → To fuel rest s
      → EndsWell (rounds fuel env b p navigated passed rest s)
  unfolding rounds
  rounds-EndsWell zero passed rest s q one r f = absurd (omega (arith, f))
  rounds-EndsWell (suc fuel) passed [] s q one r f = r
  rounds-EndsWell (suc fuel) passed (o ∷ rest) s q one r f = elim (Bool-cases (env.is_set s.tick)) [
    | inl e ↦ rw e r.within
    | inr e ↦ rw e elim (Bool-cases (leb b.max_act_steps s.stats.act_steps)) [
      | inl d ↦ rw d r
      | inr d ↦ rw d (
          after_pursue-EndsWell fuel (rounds fuel env b p navigated) passed rest o (ask s)
            (pursue_with_origin env b o navigated (ask s)) q
            (λ passed' rest' s' r' f'. rounds-EndsWell fuel passed' rest' s' q one r' f')
            (record {
              within = r.within;
              counted = r.counted;
              earned = r.earned;
              unfailed = r.unfailed;
            })
            (pursue_with_origin-Ends env b o navigated (ask s) one r.within.0) f)
    ]
  ]
