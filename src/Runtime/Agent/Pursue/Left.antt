-- ===== src/Runtime/Agent/Pursue/Left.antt =====
-- What the parts of an attempt leave of a run.
use lucy.Prelude.{
  ℕ, suc, ◌≤◌, ◌<◌, ◌||◌, ◌≡◌, refl, Bool, true, false, not, ◌&&◌, Option, none, some, arith,
  Bool-cases, inl, inr,
}
use lucy.Text.{Text, is_empty, trim}
use lucy.Runtime.Lane.{VerifyOutcome, satisfied, not_satisfied, uncertain}
use lucy.Runtime.Agent.{Objective, AgentBudget, instruction}
use lucy.Runtime.Agent.Objectives.{default_press_key}
use lucy.Runtime.Agent.State.{
  Env, exit_satisfied, AgentRun, Pursued, exits, cancelled, ask, count_act,
}
use lucy.Runtime.Agent.Pursue.{
  is_type, verify_objective, Attempt, Continue, ends_satisfied, after_press, submit_recovery,
  settle_wait, after_verify, acts, grounds, aim_at, reanchors,
}
use lucy.Runtime.Agent.Pursue.Evidence.{Evidence, verify_objective-Evidence}

-- the counters that an objective leaves as they are, and that of the probes, which only grows
abbrev pub Same : AgentRun → AgentRun → Type 0
Same s0 s =
    (s.stats.llm_calls ≡ s0.stats.llm_calls)
    × (s.stats.recoveries ≡ s0.stats.recoveries)
    × (s.stats.objectives_done ≡ s0.stats.objectives_done)
    × (s.stats.objectives_failed ≡ s0.stats.objectives_failed)
    × (s.stats.site_navigations ≡ s0.stats.site_navigations)
    × (s0.stats.vacuous_probes ≤ s.stats.vacuous_probes)

module _ (env : Env) (b : AgentBudget) (o : Objective) (s0 : AgentRun) where
  -- after an act of this objective, within the budget
  abbrev pub Acted : AgentRun → Type 0
  Acted s =
      Same s0 s × (s0.stats.act_steps < s.stats.act_steps) × (s.stats.act_steps ≤ b.max_act_steps)

  abbrev pub Bounded : AgentRun → Type 0
  Bounded s =
      Same s0 s × (s.stats.act_steps ≤ b.max_act_steps) × (s0.stats.act_steps ≤ s.stats.act_steps)

  -- An objective that is left as done has evidence, and an act if `acted` asks for one.
  abbrev pub Left : Pursued → Type 0
  Left (cancelled s) = Bounded s
  Left (exits exit_satisfied s) =
      Bounded s × Evidence env o × (s0.stats.act_steps < s.stats.act_steps)
  Left (exits e s) = Bounded s

  abbrev pub Goes : Continue → Type 0
  Goes k = (a : Attempt) (s : AgentRun) → Acted s → Left (k a s)

  pub satisfied-Left : (s : AgentRun) → Acted s → Evidence env o → Left (exits exit_satisfied s)
  satisfied-Left s h e = ((h.0, h.2, omega (arith, h.1)), e, h.1)

  ends_satisfied-Left :
      (k : Continue) (v : VerifyOutcome) (a : Attempt) (s : AgentRun)
      → Goes k
      → Acted s
      → (v ≡ satisfied → Evidence env o)
      → Left (ends_satisfied k v a s)
  ends_satisfied-Left k satisfied a s g h e = satisfied-Left s h (e refl)
  ends_satisfied-Left k not_satisfied a s g h e = g a s h
  ends_satisfied-Left k uncertain a s g h e = g a s h

  verified-Left :
      (k : Continue) (last : Bool) (t : ℕ) (a : Attempt) (s : AgentRun)
      → Goes k
      → Acted s
      → Left (ends_satisfied k (verify_objective env o last t) a s)
  verified-Left k last t a s g h =
      ends_satisfied-Left k (verify_objective env o last t) a s g h
        (verify_objective-Evidence env o last t)

  after_press-Left :
      (k : Continue) (p : Bool) (a : Attempt) (s : AgentRun)
      → Goes k
      → Acted s
      → Left (after_press env o k p a s)
  after_press-Left k true a s g h = verified-Left k false s.tick a (ask s) g h
  after_press-Left k false a s g h = g a s h

  submit_recovery-Left :
      (k : Continue) (acted : Bool) (a : Attempt) (s : AgentRun)
      → Goes k
      → Acted s
      → Left (submit_recovery env o acted k a s)
  submit_recovery-Left k acted a s g h =
      elim (Bool-cases (not a.submitted && acted && is_type o.action)) [
        | inl e ↦ rw e (
            after_press-Left k (env.press_key s.tick default_press_key)
              (record a { submitted = true }) (ask s) g h)
        | inr e ↦ rw e (g a s h)
      ]

  settle_wait-Left :
      (k : Continue) (a : Attempt) (s : AgentRun)
      → Goes k
      → Acted s
      → Left (settle_wait env o k a s)
  settle_wait-Left k a s g h = elim (Bool-cases (env.wait_for s.tick o.success_check)) [
    | inl e ↦ rw e (verified-Left k false (suc s.tick) a (ask (ask s)) g h)
    | inr e ↦ rw e (g a (ask s) h)
  ]

  after_verify-Left :
      (k : Continue) (more : Bool) (v : VerifyOutcome) (a : Attempt) (s : AgentRun)
      → Goes k
      → Acted s
      → (v ≡ satisfied → Evidence env o)
      → Left (after_verify env o more k v a s)
  after_verify-Left k more satisfied a s g h e = satisfied-Left s h (e refl)
  after_verify-Left k more not_satisfied a s g h e = g a s h
  after_verify-Left k true uncertain a s g h e = settle_wait-Left k a s g h
  after_verify-Left k false uncertain a s g h e = g a s h

  acts-Left :
      (more : Bool) (k : Continue) (aim : Text) (a : Attempt) (s : AgentRun)
      → Goes k
      → Same s0 s
      → s0.stats.act_steps ≤ s.stats.act_steps
      → s.stats.act_steps < b.max_act_steps
      → Left (acts env o more k aim a s)
  acts-Left more k aim a s g h l m =
      let s' = ask (count_act s) in
      let acted = env.act s.tick aim o in
      let done : Acted s' = (h, omega (arith, l), omega (arith, m)) in
      after_verify-Left (submit_recovery env o acted k) more (verify_objective env o false s'.tick)
        a (ask s') (λ a' t q. submit_recovery-Left k acted a' t g q) done
        (verify_objective-Evidence env o false s'.tick)

  grounds-Left :
      (more : Bool) (k : Continue) (aim : Text) (a : Attempt) (s : AgentRun)
      → Goes k
      → Same s0 s
      → s0.stats.act_steps ≤ s.stats.act_steps
      → s.stats.act_steps < b.max_act_steps
      → Left (grounds env o more k aim a s)
  grounds-Left more k aim a s g h l m =
      elim (Bool-cases (not (is_empty (trim o.suggested_action)) || env.decide_target s.tick aim)) [
        | inl e ↦ rw e (acts-Left more k aim a (ask s) g h l m)
        | inr e ↦ rw e (h, omega (arith, m), l)
      ]

  pub reanchors-Left :
      (name : Option Text) (more : Bool) (k : Continue) (a : Attempt) (s : AgentRun)
      → Goes k
      → Same s0 s
      → s0.stats.act_steps ≤ s.stats.act_steps
      → s.stats.act_steps < b.max_act_steps
      → Left (reanchors name env o more k a s)
  reanchors-Left none more k a s g h l m = grounds-Left more k (instruction o) a s g h l m
  reanchors-Left (some name) more k a s g h l m =
      grounds-Left more k (aim_at name) (record a { reanchored = true }) s g h l m
