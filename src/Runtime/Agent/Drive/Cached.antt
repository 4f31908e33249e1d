-- ===== src/Runtime/Agent/Drive/Cached.antt =====
-- What a run does to the cache of plans.
use lucy.Prelude.{
  ◌≤◌, ◌≡◌, ◌≢◌, refl, sym, ap, ◌∙◌, Bool, true, false, not, ◌&&◌, Option, none, some, List, [],
  ◌∷◌, arith, leb, Bool-cases, inl, inr, if◌then◌else◌,
}
use lucy.Prelude.Maps.{lookup-insert, lookup-remove}
use lucy.Text.{Text, codes, text_eq, trim, to_lowercase, split_whitespace, join}
use lucy.Text.Laws.{split_whitespace-words}
use lucy.Text.Equality.{text_key, text_eq_self, eq_of_text_eq}
use lucy.Runtime.Lane.Sites.{site_url_for_goal}
use lucy.Runtime.Agent.{Objective, AgentBudget}
use lucy.Runtime.Agent.State.{Env, AgentRun, ask}
use lucy.Runtime.Agent.Plan.{
  Planner, Plan, from_cache, from_model, Cache, plan, cached_or, fallback_objective, go_to,
  go_to_named_site, plan_cache_key, plan_cache_get, plan_cache_put, plan_cache_evict,
}
use lucy.Runtime.Agent.Drive.{
  Report, Outcome, reported, was_cancelled, cached_after, is_nil, objectives_of, first_run, chosen,
  drive_plan, run_agent_loop,
}
use lucy.Runtime.Agent.Drive.Ends.{go_to-Unspent}

-- the words of a goal, without their letter case
abbrev pub words : Text → List Text
words goal = split_whitespace (to_lowercase (trim goal))

key-words : (goal : Text) → split_whitespace (plan_cache_key goal) ≡ words goal
unfolding plan_cache_key
key-words goal = split_whitespace-words (to_lowercase (trim goal))

same_words :
    (goal other : Text) → words other ≡ words goal → plan_cache_key other ≡ plan_cache_key goal
unfolding plan_cache_key
same_words goal other h = ap (join (codes " ")) h

other_words :
    (goal other : Text) → words other ≢ words goal → plan_cache_key other ≢ plan_cache_key goal
other_words goal other ne e = ne (sym (key-words other) ∙ ap split_whitespace e ∙ key-words goal)

same_key :
    (goal other : Text)
    → plan_cache_key other ≡ plan_cache_key goal
    → text_eq (plan_cache_key goal) (plan_cache_key other) ≡ true
same_key goal other h = rw h (text_eq_self (plan_cache_key goal))

other_key :
    (goal other : Text)
    → plan_cache_key other ≢ plan_cache_key goal
    → text_eq (plan_cache_key goal) (plan_cache_key other) ≡ false
other_key goal other h = elim (Bool-cases (text_eq (plan_cache_key goal) (plan_cache_key other))) [
  | inl e ↦ absurd (h (sym (eq_of_text_eq (plan_cache_key goal) (plan_cache_key other) e)))
  | inr e ↦ e
]

get_put :
    (goal other : Text) (os : List Objective) (m : Cache)
    → plan_cache_get other (plan_cache_put goal os m) ≡ (
        if text_eq (plan_cache_key goal) (plan_cache_key other)
        then some os
        else plan_cache_get other m)
unfolding plan_cache_get plan_cache_put
get_put goal other os m = lookup-insert (plan_cache_key goal) (plan_cache_key other) os m

get_evict :
    (goal other : Text) (m : Cache)
    → plan_cache_get other (plan_cache_evict goal m) ≡ (
        if text_eq (plan_cache_key goal) (plan_cache_key other)
        then none
        else plan_cache_get other m)
unfolding plan_cache_get plan_cache_evict
get_evict goal other m = lookup-remove (plan_cache_key goal) (plan_cache_key other) m

-- what the cache has for a goal of the same words
abbrev Kept : Plan → Bool → Option (List Objective) → Option (List Objective) → Type 0
Kept (from_model os) complete before after =
    after ≡ (if complete && not (is_nil os) then some os else before)
Kept (from_cache os) complete before after = after ≡ (if complete then before else none)

same_get :
    (goal other : Text) (m : Cache)
    → plan_cache_key other ≡ plan_cache_key goal
    → plan_cache_get other m ≡ plan_cache_get goal m
unfolding plan_cache_get
same_get goal other m h = rw h refl

Kept-same :
    (goal other : Text) (pl : Plan) (r : Report) (s : AgentRun) (m : Cache)
    → text_eq (plan_cache_key goal) (plan_cache_key other) ≡ true
    → Kept pl r.complete
        (plan_cache_get other m)
        (plan_cache_get other (cached_after goal pl (reported r s) m))
Kept-same goal other (from_model os) r s m h = elim (Bool-cases (r.complete && not (is_nil os))) [
  | inl e ↦ rw (e, get_put goal other os m, h) refl
  | inr e ↦ rw e refl
]
Kept-same goal other (from_cache os) r s m h = elim (Bool-cases r.complete) [
  | inl e ↦ rw e refl
  | inr e ↦ rw (e, get_evict goal other m, h) refl
]

kept_other :
    (goal other : Text) (pl : Plan) (r : Report) (s : AgentRun) (m : Cache)
    → text_eq (plan_cache_key goal) (plan_cache_key other) ≡ false
    → plan_cache_get other (cached_after goal pl (reported r s) m) ≡ plan_cache_get other m
kept_other goal other (from_model os) r s m h = elim (Bool-cases (r.complete && not (is_nil os))) [
  | inl e ↦ rw (e, get_put goal other os m, h) refl
  | inr e ↦ rw e refl
]
kept_other goal other (from_cache os) r s m h = elim (Bool-cases r.complete) [
  | inl e ↦ rw e refl
  | inr e ↦ rw (e, get_evict goal other m, h) refl
]

-- a plan that came from the cache is the one that it had for the goal
cached_or-cached :
    (o : Objective) (p : Planner) (s : AgentRun) (c : Option (List Objective)) (os : List Objective)
    → (cached_or o p s c).0 ≡ from_cache os
    → c ≡ some os
cached_or-cached o p s none os h = absurd (ground (arith, h))
cached_or-cached o p s (some cs) os h = ap some (ground (arith, h))

plan-cached :
    (b : AgentBudget) (p : Planner) (o : Objective) (c : Option (List Objective)) (s : AgentRun)
    (os : List Objective)
    → (plan b p o c s).0 ≡ from_cache os
    → c ≡ some os
unfolding plan
plan-cached b p o c s os h = elim (Bool-cases (leb b.max_llm_calls s.stats.llm_calls)) [
  | inl e ↦ absurd (ground (arith, rw e at h))
  | inr e ↦ cached_or-cached o p s c os (rw e at h)
]

plan-reuses :
    (b : AgentBudget) (p : Planner) (o : Objective) (os : List Objective) (s : AgentRun)
    → 1 ≤ b.max_llm_calls
    → s.stats.llm_calls ≡ 0
    → (plan b p o (some os) s).0 ≡ from_cache os
unfolding plan
plan-reuses b p o os s l z = rw z (ground arith)

-- what a report says of the cache that the run leaves
run-cache :
    (env : Env) (b : AgentBudget) (p : Planner) (keywords : List Text) (quote : Text → Text)
    (goal : Text) (m m' : Cache) (r : Report) (s : AgentRun)
    → run_agent_loop env b p keywords quote goal m ≡ (reported r s, m')
    → m' ≡ cached_after goal (chosen env b p keywords quote goal m).0 (reported r s) m
unfolding run_agent_loop
run-cache env b p keywords quote goal m m' r s h = elim (Bool-cases (env.is_set 0)) [
  | inl e ↦ absurd (not_reported (ap (λ o. o.0) (rw e at h)))
  | inr e ↦
      let begun = chosen env b p keywords quote goal m in
      let out = drive_plan env b p goal (objectives_of begun.0) begun.1 in
      after_out begun.0 out (rw e at h)
]
  where
    not_reported : ¬ (was_cancelled first_run ≡ reported r s)
    not_reported q = ground (arith, q)

    after_out :
        (pl : Plan) (out : Outcome)
        → ◌≡◌ {A = Outcome × Cache} (out, cached_after goal pl out m) (reported r s, m')
        → m' ≡ cached_after goal pl (reported r s) m
    after_out pl out q =
        sym (ap (λ o. o.1) q) ∙ ap (λ o. cached_after goal pl o m) (ap (λ o. o.0) q)

begins-reuses :
    (env : Env) (b : AgentBudget) (p : Planner) (keywords : List Text) (quote : Text → Text)
    (goal : Text) (m : Cache) (os : List Objective)
    → 1 ≤ b.max_llm_calls
    → plan_cache_get goal m ≡ some os
    → (chosen env b p keywords quote goal m).0 ≡ from_cache os
unfolding chosen go_to_named_site
begins-reuses env b p keywords quote goal m os l h =
    let s = go_to env goal keywords (site_url_for_goal goal) (ask first_run) in
    let u =
      go_to-Unspent env goal keywords (site_url_for_goal goal) (ask first_run)
        (refl, refl, refl, refl, refl) in
    rw h (plan-reuses b p (fallback_objective quote env.alnum goal) os s l u.4)

began-cached :
    (env : Env) (b : AgentBudget) (p : Planner) (keywords : List Text) (quote : Text → Text)
    (goal : Text) (m : Cache) (os : List Objective)
    → (chosen env b p keywords quote goal m).0 ≡ from_cache os
    → plan_cache_get goal m ≡ some os
unfolding chosen
began-cached env b p keywords quote goal m os h =
    plan-cached b p (fallback_objective quote env.alnum goal) (plan_cache_get goal m)
      (go_to_named_site env goal keywords (ask first_run)) os h

is_nil-false : (os : List Objective) → os ≢ [] → is_nil os ≡ false
is_nil-false [] h = absurd (h refl)
is_nil-false (o ∷ os) h = refl

Kept-complete :
    (pl : Plan) (before after : Option (List Objective))
    → ((os : List Objective) → pl ≡ from_cache os → before ≡ some os)
    → objectives_of pl ≢ []
    → Kept pl true before after
    → after ≡ some (objectives_of pl)
Kept-complete (from_model os) before after c ne h = rw (is_nil-false os ne) at h
Kept-complete (from_cache os) before after c ne h = h ∙ c os refl

module _ (env env' : Env) (b b' : AgentBudget) (p p' : Planner) (keywords keywords' : List Text)
    (quote quote' : Text → Text) (goal other : Text) (m m' : Cache) where
  abbrev pub first_plan : Plan
  first_plan = (chosen env b p keywords quote goal m).0

  same_goal :
      (r : Report) (s : AgentRun)
      → run_agent_loop env b p keywords quote goal m ≡ (reported r s, m')
      → words other ≡ words goal
      → Kept first_plan r.complete (plan_cache_get other m) (plan_cache_get other m')
  same_goal r s h w =
      rw (run-cache env b p keywords quote goal m m' r s h)
        (Kept-same goal other first_plan r s m (same_key goal other (same_words goal other w)))

  -- After a run that ended with a report, a later run for the same goal, or one that differs from it in
  -- letter case and blanks only, begins with the plan that the run began with, if that plan is not empty and the run
  -- was complete, as long as it may call the model at all. After a run that was not complete, the cache
  -- has nothing for such a goal if the plan came from the cache, and what it had before if it did not. For all other goals
  -- the cache is as before.
  pub run_agent_loop-reuses_plan :
      (r : Report) (s : AgentRun)
      → run_agent_loop env b p keywords quote goal m ≡ (reported r s, m')
      → 1 ≤ b'.max_llm_calls
      → (words other ≡ words goal
          → r.complete ≡ true
          → objectives_of first_plan ≢ []
          → (chosen env' b' p' keywords' quote' other m').0 ≡ from_cache (objectives_of first_plan))
        × (words other ≡ words goal
            → r.complete ≡ false
            → (os : List Objective)
            → (first_plan ≡ from_cache os → plan_cache_get other m' ≡ none)
              × (first_plan ≡ from_model os → plan_cache_get other m' ≡ plan_cache_get other m))
        × (words other ≢ words goal → plan_cache_get other m' ≡ plan_cache_get other m)
  run_agent_loop-reuses_plan r s h l = (
    λ w c ne. begins-reuses env' b' p' keywords' quote' other m' (objectives_of first_plan) l (
        Kept-complete first_plan (plan_cache_get other m) (plan_cache_get other m')
          (λ os e.
            same_get goal other m (same_words goal other w)
            ∙ began-cached env b p keywords quote goal m os e)
          ne (rw c at (same_goal r s h w))),
    λ w c os. (λ e. rw (e, c) at (same_goal r s h w), λ e. rw (e, c) at (same_goal r s h w)),
    λ ne.
        rw (run-cache env b p keywords quote goal m m' r s h) (
          kept_other goal other first_plan r s m
            (other_key goal other (other_words goal other ne))),
  )
