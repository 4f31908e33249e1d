-- ===== src/Runtime/Agent/Drive/Early.antt =====
-- What a probe that is true before Lucy acts does to the report of the agent loop.
use lucy.Prelude.{
  ℕ, zero, suc, ◌≤◌, ◌<◌, ◌≡◌, ◌⊎◌, ap, Bool, true, false, not, ◌&&◌, Option, none, some, List, [],
  ◌∷◌, ◌++◌, arith, length, length-append, leb, ltb, ◌==◌, Bool-cases, inl, inr, max,
}
use lucy.Text.{Text, trim}
use lucy.Runtime.Agent.{Objective, AgentBudget}
use lucy.Runtime.Agent.State.{
  Env, exit_satisfied, needs_replan, unproven, attempts_exhausted, act_budget_exhausted, AgentRun,
  Pursued, exits, cancelled, ask, count_vacuous,
}
use lucy.Runtime.Agent.Pursue.{holds, own_verdict, already_true, pursue_with_origin}
use lucy.Runtime.Agent.Pursue.Ends.{Ends, pursue_with_origin-Ends}
use lucy.Runtime.Agent.Plan.{
  Reply, replied, no_reply, Planner, count_call, second_try, first_try, llm_json, count_recovery,
  observed_screen, replan,
}
use lucy.Runtime.Agent.Drive.{
  Driven, ended, stopped, no_fuel, count_done, count_failed, with_total, Rounds, after_replan,
  after_pursue, rounds, last_of, own_probe, overall_of, Outcome, reported, was_cancelled,
  out_of_fuel, final_summary, finish, is_nil,
}
use lucy.Runtime.Agent.Drive.Complete.{completes-cases, nil_of}

-- the probes that were true too early and the failures are not forgotten
abbrev Keeps : AgentRun → AgentRun → Type 0
Keeps s0 s =
    (s0.stats.vacuous_probes ≤ s.stats.vacuous_probes)
    × (length s0.stats.objectives_failed ≤ length s.stats.objectives_failed)

abbrev Later : AgentRun → Driven → Type 0
Later s0 (ended passed rest s) = Keeps s0 s
Later s0 (stopped s) = Unit
Later s0 no_fuel = Unit

Later-trans : (s0 s : AgentRun) (d : Driven) → Keeps s0 s → Later s d → Later s0 d
Later-trans s0 s (ended passed rest s') h l = omega (arith, h, l)
Later-trans s0 s (stopped s') h l = tt
Later-trans s0 s no_fuel h l = tt

second_try-Keeps : (s : AgentRun) (r : Reply) → Keeps s (second_try r s).1
second_try-Keeps s (replied os) = omega arith
second_try-Keeps s (no_reply w) = omega arith

first_try-Keeps : (p : Planner) (s : AgentRun) (r : Reply) → Keeps s (first_try p r s).1
first_try-Keeps p s (replied os) = omega arith
first_try-Keeps p s (no_reply false) = omega arith
first_try-Keeps p s (no_reply true) = second_try-Keeps (count_call s) (p s.tick)

llm_json-Keeps : (p : Planner) (s : AgentRun) → Keeps s (llm_json p s).1
unfolding llm_json
llm_json-Keeps p s = first_try-Keeps p (count_call s) (p s.tick)

replan-Keeps :
    (env : Env) (b : AgentBudget) (p : Planner) (s : AgentRun) → Keeps s (replan env b p s).1
unfolding replan
replan-Keeps env b p s = elim (Bool-cases (not b.replan_on_failure)) [
  | inl e ↦ rw e (omega arith, omega arith)
  | inr e ↦ rw e elim (Bool-cases (leb b.max_recoveries s.stats.recoveries)) [
    | inl f ↦ rw f (omega arith, omega arith)
    | inr f ↦ rw f elim (Bool-cases (leb b.max_llm_calls s.stats.llm_calls)) [
      | inl g ↦ rw g (omega arith, omega arith)
      | inr g ↦ rw g (llm_json-Keeps p (observed_screen env (count_recovery s)))
    ]
  ]
]

module _ (env : Env) (b : AgentBudget) (p : Planner) (navigated : Bool) where
  -- what the rounds come to keeps what they go on from
  abbrev GoesOn : Rounds → Type 0
  GoesOn k = (passed rest : List Objective) (s : AgentRun) → Later s (k passed rest s)

  count_failed-Keeps : (o : Objective) (s : AgentRun) → Keeps s (count_failed o s)
  count_failed-Keeps o s = (
    omega arith,
    omega (arith, length-append s.stats.objectives_failed (trim o.description ∷ [])),
  )

  after_replan-Later :
      (k : Rounds) (passed rest : List Objective) (o : Objective) (s0 : AgentRun)
      (r : Option (List Objective) × AgentRun)
      → GoesOn k
      → Keeps s0 r.1
      → Later s0 (after_replan k passed o rest r)
  after_replan-Later k passed rest o s0 (none, s) g h =
      Later-trans s0 s (k (passed ++ (o ∷ [])) rest s) h (g (passed ++ (o ∷ [])) rest s)
  after_replan-Later k passed rest o s0 (some revised, s) g h =
      let s' = with_total (length (passed ++ revised)) s in
      Later-trans s0 s' (k passed revised s') h (g passed revised s')

  failed-Later :
      (k : Rounds) (passed rest : List Objective) (o : Objective) (s0 s : AgentRun)
      → GoesOn k
      → Keeps s0 s
      → Later s0 (after_replan k passed o rest (replan env b p (count_failed o s)))
  failed-Later k passed rest o s0 s g h =
      let f = count_failed-Keeps o s in
      let r = replan-Keeps env b p (count_failed o s) in
      after_replan-Later k passed rest o s0 (replan env b p (count_failed o s)) g
        (omega (arith, h.0, f.0, r.0), omega (arith, h.1, f.1, r.1))

  after_pursue-Later :
      (k : Rounds) (passed rest : List Objective) (o : Objective) (s0 : AgentRun) (u : Pursued)
      → GoesOn k
      → Ends env b o navigated s0 u
      → Later s0 (after_pursue env b p k passed o rest u)
  after_pursue-Later k passed rest o s0 (cancelled s) g h = tt
  after_pursue-Later k passed rest o s0 (exits exit_satisfied s) g h =
      Later-trans s0 (count_done s) (k (passed ++ (o ∷ [])) rest (count_done s))
        (h.0.0.5, omega (arith, ap length h.0.0.3)) (g (passed ++ (o ∷ [])) rest (count_done s))
  after_pursue-Later k passed rest o s0 (exits unproven s) g h =
      let s' = count_vacuous (count_failed o s) in
      Later-trans s0 s' (k (passed ++ (o ∷ [])) rest s')
        (omega (arith, h.0.5), omega (arith, ap length h.0.3, (count_failed-Keeps o s).1))
        (g (passed ++ (o ∷ [])) rest s')
  after_pursue-Later k passed rest o s0 (exits (needs_replan w) s) g h =
      failed-Later k passed rest o s0 s g (h.0.5, omega (arith, ap length h.0.3))
  after_pursue-Later k passed rest o s0 (exits attempts_exhausted s) g h =
      failed-Later k passed rest o s0 s g (h.0.5, omega (arith, ap length h.0.3))
  after_pursue-Later k passed rest o s0 (exits act_budget_exhausted s) g h =
      failed-Later k passed rest o s0 s g (h.0.5, omega (arith, ap length h.0.3))

  rounds-Later : (fuel : ℕ) → 1 ≤ b.max_repeats → GoesOn (rounds fuel env b p navigated)
  unfolding rounds
  rounds-Later zero one passed rest s = tt
  rounds-Later (suc fuel) one passed [] s = (omega arith, omega arith)
  rounds-Later (suc fuel) one passed (o ∷ rest) s = elim (Bool-cases (env.is_set s.tick)) [
    | inl e ↦ rw e tt
    | inr e ↦ rw e elim (Bool-cases (leb b.max_act_steps s.stats.act_steps)) [
      | inl d ↦ rw d (omega arith, omega arith)
      | inr d ↦ rw d (
          after_pursue-Later (rounds fuel env b p navigated) passed rest o (ask s)
            (pursue_with_origin env b o navigated (ask s)) (rounds-Later fuel one)
            (pursue_with_origin-Ends env b o navigated (ask s) one (ground (arith, d))))
    ]
  ]

  -- the probe was counted, and the objective failed unless `done` objectives were done before
  abbrev Marked : ℕ → AgentRun → Type 0
  Marked done s =
      (0 < s.stats.vacuous_probes) × ((0 < done) ⊎ (0 < length s.stats.objectives_failed))

  abbrev MarkedEnd : ℕ → Driven → Type 0
  MarkedEnd done (ended passed rest s) = Marked done s
  MarkedEnd done (stopped s) = Unit
  MarkedEnd done no_fuel = Unit

  Marked-Later :
      (done : ℕ) (s : AgentRun) (d : Driven) → Marked done s → Later s d → MarkedEnd done d
  Marked-Later done s (ended passed rest s') m h = ground (arith, m, h)
  Marked-Later done s (stopped s') m h = tt
  Marked-Later done s no_fuel m h = tt

  -- the round of an objective whose probe is already true
  early-Marked :
      (k : Rounds) (passed rest : List Objective) (o : Objective) (s : AgentRun)
      → GoesOn k
      → (navigated ≡ false) ⊎ (0 < s.stats.objectives_done)
      → MarkedEnd s.stats.objectives_done
          (after_pursue env b p k passed o rest (already_true navigated s))
  early-Marked k passed rest o s g h = elim (Bool-cases (ltb 0 s.stats.objectives_done)) [
    | inl d ↦
        let s' = count_done (count_vacuous s) in
        let none_yet : (navigated && (s.stats.objectives_done == 0)) ≡ false = ground (arith, d) in
        rw (none_yet, d)
          (Marked-Later s.stats.objectives_done s' (k (passed ++ (o ∷ [])) rest s')
            (omega arith, inl (ground (arith, d))) (g (passed ++ (o ∷ [])) rest s'))
    | inr d ↦
        let s' = count_vacuous (count_failed o s) in
        let not_landed : (navigated && (s.stats.objectives_done == 0)) ≡ false =
          ground (arith, d, h) in
        rw (not_landed, d)
          (Marked-Later s.stats.objectives_done s' (k (passed ++ (o ∷ [])) rest s')
            (
              omega arith,
              inr (
                  omega (arith, length-append s.stats.objectives_failed (trim o.description ∷ []))),
            )
            (g (passed ++ (o ∷ [])) rest s'))
  ]

  -- a report of completion needs an earlier success, and that every objective is done and none failed
  abbrev pub NotByProbe : ℕ → Outcome → Type 0
  NotByProbe done (reported r s) =
      r.complete ≡ true
      → (0 < done) × (s.stats.objectives_failed ≡ []) × (0 < r.total) × (r.done ≡ r.total)
  NotByProbe done (was_cancelled s) = Unit
  NotByProbe done out_of_fuel = Unit

  earlier :
      (done : ℕ) (failed : List Text) → (0 < done) ⊎ (0 < length failed) → failed ≡ [] → 0 < done
  earlier done failed (inl d) e = d
  earlier done failed (inr f) e = absurd (omega (arith, ap length e, f))

  final_summary-NotByProbe :
      (goal : Text) (done : ℕ) (passed rest : List Objective) (s : AgentRun)
      → Marked done s
      → NotByProbe done (final_summary env goal passed rest s)
  unfolding final_summary
  final_summary-NotByProbe goal done passed rest s m = elim (Bool-cases (env.is_set s.tick)) [
    | inl e ↦ rw e tt
    | inr e ↦ rw e (λ h.
        let total = max (length (passed ++ rest)) s.stats.objectives_total in
        let last = last_of (passed ++ rest) in
        let verdict = own_probe env last s.tick in
        tallied (completes-cases s total verdict (overall_of env goal verdict last s.tick) h))
  ]
    where
      tallied :
          {A : Type 0} {total : ℕ}
          → ((0 < total)
              × (s.stats.objectives_done ≡ total)
              × (is_nil s.stats.objectives_failed ≡ true))
            ⊎ (A × (s.stats.vacuous_probes ≡ 0))
          → (0 < done)
            × (s.stats.objectives_failed ≡ [])
            × (0 < total)
            × (s.stats.objectives_done ≡ total)
      tallied (inl (z, d, f)) =
          let none_failed = nil_of s.stats.objectives_failed f in
          (earlier done s.stats.objectives_failed m.1 none_failed, none_failed, z, d)
      tallied (inr (_, v)) = absurd (omega (arith, v, m.0))

  finish-NotByProbe :
      (goal : Text) (done : ℕ) (d : Driven) → MarkedEnd done d → NotByProbe done (finish env goal d)
  finish-NotByProbe goal done (ended passed rest s) m =
      final_summary-NotByProbe goal done passed rest s m
  finish-NotByProbe goal done (stopped s) m = tt
  finish-NotByProbe goal done no_fuel m = tt

  early_round-Marked :
      (fuel : ℕ) (passed rest : List Objective) (o : Objective) (s : AgentRun)
      → 1 ≤ b.max_repeats
      → s.stats.act_steps < b.max_act_steps
      → own_verdict env o (suc s.tick) ≡ some true
      → (navigated ≡ false) ⊎ (0 < s.stats.objectives_done)
      → MarkedEnd s.stats.objectives_done (rounds (suc fuel) env b p navigated passed (o ∷ rest) s)
  unfolding rounds pursue_with_origin
  early_round-Marked fuel passed rest o s one a v h = elim (Bool-cases (env.is_set s.tick)) [
    | inl e ↦ rw e tt
    | inr e ↦
        let affordable : leb b.max_act_steps s.stats.act_steps ≡ false = ground (arith, a) in
        let true_already : holds (own_verdict env o (suc s.tick)) ≡ true = ap holds v in
        rw (e, affordable, true_already)
          (early-Marked (rounds fuel env b p navigated) passed rest o (ask (ask s))
            (rounds-Later fuel one) h)
  ]

  -- Wherever the rounds of a run go on from (any objectives passed and to come, any counters, any fuel), as
  -- long as acts are left: if the probe of the next objective is true before Lucy acts on it, and this is not
  -- the landing on the goal's own site before any objective was done, then however the run goes on, a report
  -- of completion needs an objective that was done before this one, and that in the end no objective failed
  -- and all are done. So such a run is never completed by the check of the whole goal, and one in which
  -- nothing was done before is not completed at all. `max_repeats` is not zero.
  pub rounds-NotByProbe :
      (goal : Text) (fuel : ℕ) (passed rest : List Objective) (o : Objective) (s : AgentRun)
      → 1 ≤ b.max_repeats
      → s.stats.act_steps < b.max_act_steps
      → own_verdict env o (suc s.tick) ≡ some true
      → (navigated ≡ false) ⊎ (0 < s.stats.objectives_done)
      → NotByProbe s.stats.objectives_done
          (finish env goal (rounds (suc fuel) env b p navigated passed (o ∷ rest) s))
  rounds-NotByProbe goal fuel passed rest o s one a v h =
      finish-NotByProbe goal s.stats.objectives_done
        (rounds (suc fuel) env b p navigated passed (o ∷ rest) s)
        (early_round-Marked fuel passed rest o s one a v h)
