-- ===== src/Runtime/Agent/Pursue/Ends.antt =====
-- What one objective leaves of a run.
use lucy.Prelude.{
  ℕ, zero, suc, ◌≤◌, ◌<◌, ◌≡◌, ◌⊎◌, refl, Bool, true, false, ◌&&◌, none, arith, leb, Bool-cases,
  inl, inr, ltb, ◌==◌,
}
use lucy.Runtime.Lane.{VerifyOutcome, satisfied, not_satisfied, uncertain}
use lucy.Runtime.Agent.{Objective, AgentBudget, attempts_per_objective}
use lucy.Runtime.Agent.State.{
  ScreenState, Env, exit_satisfied, needs_replan, unproven, attempts_exhausted,
  act_budget_exhausted, AgentRun, Pursued, exits, cancelled, ask,
}
use lucy.Runtime.Agent.Pursue.{
  holds, own_verdict, probe_confirms, verify_objective, Attempt, Continue, seen, anchor_for,
  thrashing, looked, attempts_once, last_verdict, next_attempt, attempt_loop, first_attempt,
  already_true, pursue_with_origin,
}
use lucy.Runtime.Agent.Pursue.Evidence.{
  Evidence, own_verdict-Evidence, probe_confirms-Evidence, verify_objective-Evidence,
}
use lucy.Runtime.Agent.Pursue.Left.{
  Same, Acted, Bounded, Left, Goes, satisfied-Left, reanchors-Left,
}

module _ (env : Env) (b : AgentBudget) (o : Objective) (s0 : AgentRun) where
  -- the first attempt, or one after an act
  abbrev Begun : Attempt → AgentRun → Type 0
  Begun a s = ((a.previous ≡ none) × (a.repeats ≡ 0)) ⊎ (s0.stats.act_steps < s.stats.act_steps)

  seen_first :
      (screen : ScreenState) (a : Attempt) → a.previous ≡ none → (seen screen a).repeats ≡ 0
  seen_first screen a h = rw h refl

  thrashing-Left : (s : AgentRun) → Acted env b o s0 s → Left env b o s0 (thrashing env o s)
  thrashing-Left s h = elim (Bool-cases (probe_confirms env o s.tick)) [
    | inl e ↦ rw e ((h.0, h.2, omega (arith, h.1)), probe_confirms-Evidence env o s.tick e, h.1)
    | inr e ↦ rw e (h.0, h.2, omega (arith, h.1))
  ]

  looked-Left :
      (more : Bool) (k : Continue) (screen : ScreenState) (a : Attempt) (s : AgentRun)
      → Goes env b o s0 k
      → 1 ≤ b.max_repeats
      → Same s0 s
      → s0.stats.act_steps ≤ s.stats.act_steps
      → s.stats.act_steps < b.max_act_steps
      → (a.repeats ≡ 0) ⊎ (s0.stats.act_steps < s.stats.act_steps)
      → Left env b o s0 (looked env b o more k screen a s)
  looked-Left more k screen a s g one h l m r = elim (Bool-cases (leb b.max_repeats a.repeats)) [
    | inl e ↦ rw e (thrashing-Left s (h, ground (arith, e, one, r), omega (arith, m)))
    | inr e ↦ rw e elim (Bool-cases (screen.count == 0)) [
      | inl f ↦ rw f (h, omega (arith, m), l)
      | inr f ↦ rw f (reanchors-Left env b o s0 (anchor_for env o screen a) more k a s g h l m)
    ]
  ]

  repeats_or_acted :
      (screen : ScreenState) (a : Attempt) (s : AgentRun)
      → Begun a s
      → ((seen screen a).repeats ≡ 0) ⊎ (s0.stats.act_steps < s.stats.act_steps)
  repeats_or_acted screen a s (inl h) = inl (seen_first screen a h.0)
  repeats_or_acted screen a s (inr h) = inr h

  attempts_once-Left :
      (more : Bool) (k : Continue) (a : Attempt) (s : AgentRun)
      → Goes env b o s0 k
      → 1 ≤ b.max_repeats
      → Bounded env b o s0 s
      → s0.stats.act_steps ≤ s.stats.act_steps
      → Begun a s
      → Left env b o s0 (attempts_once env b o more k a s)
  unfolding attempts_once
  attempts_once-Left more k a s g one h l r = elim (Bool-cases (env.is_set s.tick)) [
    | inl e ↦ rw e h
    | inr e ↦ rw e elim (Bool-cases (leb b.max_act_steps s.stats.act_steps)) [
      | inl f ↦ rw f h
      | inr f ↦ rw f (
          let screen = env.perceive_screen s.tick in
          looked-Left more k screen (seen screen a) (ask s) g one h.0 l (ground (arith, f))
            (repeats_or_acted screen a s r))
    ]
  ]

  last_verdict-Left :
      (v : VerifyOutcome) (s : AgentRun)
      → Acted env b o s0 s
      → (v ≡ satisfied → Evidence env o)
      → Left env b o s0 (last_verdict v s)
  last_verdict-Left satisfied s h e = satisfied-Left env b o s0 s h (e refl)
  last_verdict-Left not_satisfied s h e = (h.0, h.2, omega (arith, h.1))
  last_verdict-Left uncertain s h e = (h.0, h.2, omega (arith, h.1))

  closing-Left : (a : Attempt) → Goes env b o s0 (attempt_loop env b o 0)
  unfolding attempt_loop
  closing-Left a0 a s h =
      last_verdict-Left (verify_objective env o true s.tick) (ask s) h
        (verify_objective-Evidence env o true s.tick)

  attempt_loop-Left :
      (left : ℕ) (a : Attempt) (s : AgentRun)
      → 1 ≤ b.max_repeats
      → Bounded env b o s0 s
      → s0.stats.act_steps ≤ s.stats.act_steps
      → Begun a s
      → Left env b o s0 (attempt_loop env b o (suc left) a s)
  unfolding attempt_loop
  attempt_loop-Left zero a s one h l r =
      attempts_once-Left false (λ a' s'. attempt_loop env b o 0 (next_attempt a') s') a s
        (λ a' s' q. closing-Left a' (next_attempt a') s' q) one h l r
  attempt_loop-Left (suc left) a s one h l r =
      attempts_once-Left true (λ a' s'. attempt_loop env b o (suc left) (next_attempt a') s') a s
        (λ a' s' q.
          attempt_loop-Left left (next_attempt a') s' one (q.0, q.2, omega (arith, q.1))
            (omega (arith, q.1)) (inr q.1))
        one h l r

  attempts-Left :
      (n : ℕ) (s : AgentRun)
      → 1 ≤ n
      → 1 ≤ b.max_repeats
      → Bounded env b o s0 s
      → s0.stats.act_steps ≤ s.stats.act_steps
      → Left env b o s0 (attempt_loop env b o n first_attempt s)
  attempts-Left zero s h one k l = absurd (omega (arith, h))
  attempts-Left (suc n) s h one k l = attempt_loop-Left n first_attempt s one k l (inl (refl, refl))

-- What an objective leaves: an objective that is done has evidence, and it is done by an act of its own,
-- or the run had navigated, or some objective was done before.
abbrev pub Ends : Env → AgentBudget → Objective → Bool → AgentRun → Pursued → Type 0
Ends env b o navigated s0 (cancelled s) = Bounded env b o s0 s
Ends env b o navigated s0 (exits exit_satisfied s) =
    Bounded env b o s0 s
    × Evidence env o
    × ((s0.stats.act_steps < s.stats.act_steps)
        ⊎ (navigated ≡ true)
        ⊎ (0 < s0.stats.objectives_done))
Ends env b o navigated s0 (exits e s) = Bounded env b o s0 s

Left-Ends :
    (env : Env) (b : AgentBudget) (o : Objective) (navigated : Bool) (s0 : AgentRun) (p : Pursued)
    → Left env b o s0 p
    → Ends env b o navigated s0 p
Left-Ends env b o navigated s0 (cancelled s) h = h
Left-Ends env b o navigated s0 (exits exit_satisfied s) h = (h.0, h.1, inl h.2)
Left-Ends env b o navigated s0 (exits (needs_replan w) s) h = h
Left-Ends env b o navigated s0 (exits unproven s) h = h
Left-Ends env b o navigated s0 (exits attempts_exhausted s) h = h
Left-Ends env b o navigated s0 (exits act_budget_exhausted s) h = h

already_true-Ends :
    (env : Env) (b : AgentBudget) (o : Objective) (navigated : Bool) (s : AgentRun)
    → s.stats.act_steps ≤ b.max_act_steps
    → Evidence env o
    → Ends env b o navigated s (already_true navigated (ask s))
already_true-Ends env b o navigated s h e =
    elim (Bool-cases (navigated && (s.stats.objectives_done == 0))) [
      | inl f ↦ rw f (
        ((refl, refl, refl, refl, refl, omega arith), h, omega arith),
        e,
        inr (inl (ground (arith, f))),
      )
      | inr f ↦ rw f elim (Bool-cases (ltb 0 s.stats.objectives_done)) [
        | inl g ↦ rw g (
          ((refl, refl, refl, refl, refl, omega arith), h, omega arith),
          e,
          inr (inr (ground (arith, g))),
        )
        | inr g ↦ rw g ((refl, refl, refl, refl, refl, omega arith), h, omega arith)
      ]
    ]

attempts_positive : (b : AgentBudget) → 1 ≤ attempts_per_objective b
unfolding attempts_per_objective
attempts_positive b = omega arith

pub pursue_with_origin-Ends :
    (env : Env) (b : AgentBudget) (o : Objective) (navigated : Bool) (s : AgentRun)
    → 1 ≤ b.max_repeats
    → s.stats.act_steps ≤ b.max_act_steps
    → Ends env b o navigated s (pursue_with_origin env b o navigated s)
unfolding pursue_with_origin
pursue_with_origin-Ends env b o navigated s one h =
    elim (Bool-cases (holds (own_verdict env o s.tick))) [
      | inl e ↦ rw e (already_true-Ends env b o navigated s h (own_verdict-Evidence env o s.tick e))
      | inr e ↦ rw e (
          Left-Ends env b o navigated s _ (
            attempts-Left env b o s (attempts_per_objective b) (ask s) (attempts_positive b) one
              ((refl, refl, refl, refl, refl, omega arith), h, omega arith) (omega arith)))
    ]
