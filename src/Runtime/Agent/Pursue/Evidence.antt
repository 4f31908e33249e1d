-- ===== src/Runtime/Agent/Pursue/Evidence.antt =====
-- What one objective leaves of a run: its counters, and the evidence that it is done.
use lucy.Prelude.{
  ℕ, ◌≡◌, ◌⊎◌, refl, Bool, true, false, Option, none, some, arith, Option-cases, inl, inr,
}
use lucy.Text.{Text}
use lucy.Runtime.Lane.{VerifyOutcome, satisfied, not_satisfied, uncertain}
use lucy.Runtime.Agent.{Objective}
use lucy.Runtime.Agent.State.{Env}
use lucy.Runtime.Agent.Pursue.{
  holds, own_verdict, probe_confirms, asked_again, unless_confirmed, verify_objective,
}

-- The objective's probe was true on the page, or the screen was found to satisfy its check.
pub data Evidence (env : Env) (o : Objective) : Type 0 where
  by_probe :
      (t : ℕ) (p : Text)
      → o.success_probe ≡ some p
      → env.probe_verdict t p ≡ some true
      → Evidence env o
  by_screen :
      (t : ℕ) (e : Option Text) → env.verify_step t o.success_check e ≡ satisfied → Evidence env o

probe_of-Evidence :
    (env : Env) (o : Objective) (t : ℕ) (q : Option Text)
    → o.success_probe ≡ q
    → holds (elim q [ none ↦ none | some p ↦ env.probe_verdict t p ]) ≡ true
    → Evidence env o
probe_of-Evidence env o t none e h = absurd (ground (arith, h))
probe_of-Evidence env o t (some p) e h = elim (Option-cases (env.probe_verdict t p)) [
  | inl f ↦ absurd (ground (arith, h, f))
  | inr (true, f) ↦ by_probe t p e f
  | inr (false, f) ↦ absurd (ground (arith, h, f))
]

pub own_verdict-Evidence :
    (env : Env) (o : Objective) (t : ℕ) → holds (own_verdict env o t) ≡ true → Evidence env o
own_verdict-Evidence env o t h = probe_of-Evidence env o t o.success_probe refl h

pub probe_confirms-Evidence :
    (env : Env) (o : Objective) (t : ℕ) → probe_confirms env o t ≡ true → Evidence env o
probe_confirms-Evidence env o t h = own_verdict-Evidence env o t h

asked_again-Evidence :
    (env : Env) (o : Objective) (last : Bool) (t : ℕ) (v : VerifyOutcome)
    → env.verify_step t o.success_check none ≡ v
    → asked_again env o last t v ≡ satisfied
    → Evidence env o
asked_again-Evidence env o true t uncertain e h = by_screen t (some o.description) h
asked_again-Evidence env o false t uncertain e h = absurd (ground (arith, h))
asked_again-Evidence env o true t satisfied e h = by_screen t none e
asked_again-Evidence env o false t satisfied e h = by_screen t none e
asked_again-Evidence env o true t not_satisfied e h = absurd (ground (arith, h))
asked_again-Evidence env o false t not_satisfied e h = absurd (ground (arith, h))

unless_confirmed-satisfied :
    (b : Bool) (v : VerifyOutcome) → unless_confirmed b v ≡ satisfied → (b ≡ true) ⊎ (v ≡ satisfied)
unless_confirmed-satisfied true v h = inl refl
unless_confirmed-satisfied false v h = inr h

pub verify_objective-Evidence :
    (env : Env) (o : Objective) (last : Bool) (t : ℕ)
    → verify_objective env o last t ≡ satisfied
    → Evidence env o
unfolding verify_objective
verify_objective-Evidence env o last t h =
    let v = env.verify_step t o.success_check none in
    elim (unless_confirmed-satisfied (probe_confirms env o t) (asked_again env o last t v) h) [
      | inl e ↦ probe_confirms-Evidence env o t e
      | inr e ↦ asked_again-Evidence env o last t v refl e
    ]
