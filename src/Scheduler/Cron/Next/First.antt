-- ===== src/Scheduler/Cron/Next/First.antt =====
-- The search ends, and finds the first minute that matches.
use mathlib.Core.Path.{subst}
use lucy.Prelude.{
  ℕ, zero, suc, ◌+◌, ◌*◌, ◌≤◌, ◌<◌, ◌≡◌, refl, true, false, Option, none, some, arith, leb,
  Bool-cases, Option-cases, inl, inr, leb→le, leb-false→lt, lt→leb-false, ◌∙◌,
}
use lucy.Scheduler.Cron.{CronExpression}
use lucy.Scheduler.Cron.Next.{
  Chrono, minute_ns, Search, found, past_limit, overflow, out_of_fuel, limit_minutes, matches_time,
  search_from, first_candidate, next_after, nth_minute, answer,
}

module _ (c : Chrono) (e : CronExpression) where
  open c use {Time, instant, add_minutes, add_minutes_lem, on_the_minute-le}

  -- What the search from `t` answers, up to the limit.
  abbrev IsFirst : ℕ → Time → Search Time → Type 0
  IsFirst limit t (found u) =
      (k : ℕ) × (nth_minute c t k ≡ some u)
      × (matches_time c e u ≡ true)
      × (instant u ≤ limit)
      × ((j : ℕ) (v : Time) → j < k → nth_minute c t j ≡ some v → matches_time c e v ≡ false)
  IsFirst limit t out_of_fuel = ⊥
  IsFirst limit t _ =
      (j : ℕ) (v : Time)
      → nth_minute c t j ≡ some v
      → instant v ≤ limit
      → matches_time c e v ≡ false

  -- one minute later in the chain of minutes
  nth_minute-suc :
      (t u : Time) (k : ℕ) → add_minutes t 1 ≡ some u → nth_minute c t (suc k) ≡ nth_minute c u k
  unfolding nth_minute
  nth_minute-suc t u k h = rw (h, nth_minute)

  nth_minute-none :
      (t v : Time) (k : ℕ) → add_minutes t 1 ≡ none → nth_minute c t (suc k) ≡ some v → ⊥
  unfolding nth_minute
  nth_minute-none t v k h = rw (h, nth_minute) (λ p. cc)

  nth_minute-zero : (t v : Time) → nth_minute c t 0 ≡ some v → t ≡ v
  unfolding nth_minute
  nth_minute-zero t v h = cc

  instant-nth_minute :
      (t : Time) (k : ℕ) (v : Time) → nth_minute c t k ≡ some v → instant t ≤ instant v
  instant-nth_minute t zero v h = rw (nth_minute-zero t v h) (omega arith)
  instant-nth_minute t (suc k) v h = elim (Option-cases (add_minutes t 1)) [
    | inl p ↦ absurd (nth_minute-none t v k p h)
    | inr (u, p) ↦ omega (
      arith,
      add_minutes_lem t 1 u p,
      instant-nth_minute u k v (rw (nth_minute-suc t u k p) at h),
    )
  ]

  -- a property of every minute from `t` on
  from_next :
      (P : ℕ → Time → Type 0) (t u : Time)
      → add_minutes t 1 ≡ some u
      → P 0 t
      → ((j : ℕ) (v : Time) → nth_minute c u j ≡ some v → P (suc j) v)
      → (j : ℕ) (v : Time) → nth_minute c t j ≡ some v
      → P j v
  from_next P t u p h k zero v q = subst (P 0) (nth_minute-zero t v q) h
  from_next P t u p h k (suc j) v q = k j v (rw (nth_minute-suc t u j p) at q)

  IsFirst-later :
      (limit : ℕ) (t u : Time) (r : Search Time)
      → add_minutes t 1 ≡ some u
      → matches_time c e t ≡ false
      → IsFirst limit u r
      → IsFirst limit t r
  IsFirst-later limit t u (found w) p m (k, at_k, hit, below, before) = (
    suc k,
    nth_minute-suc t u k p ∙ at_k,
    hit,
    below,
    λ j v lt q.
        from_next (λ i x. i < suc k → matches_time c e x ≡ false) t u p (λ _. m)
          (λ i x a b. before i x (omega arith) a) j v q lt,
  )
  IsFirst-later limit t u past_limit p m h =
      from_next (λ i x. instant x ≤ limit → matches_time c e x ≡ false) t u p (λ _. m) h
  IsFirst-later limit t u overflow p m h =
      from_next (λ i x. instant x ≤ limit → matches_time c e x ≡ false) t u p (λ _. m) h
  IsFirst-later limit t u out_of_fuel p m h = h

  IsFirst-here :
      (limit : ℕ) (t : Time)
      → matches_time c e t ≡ true
      → instant t ≤ limit
      → IsFirst limit t (found t)
  IsFirst-here limit t m h = (0, unfold nth_minute in refl, m, h, λ j v lt q. absurd (omega arith))

  IsFirst-overflow :
      (limit : ℕ) (t : Time)
      → add_minutes t 1 ≡ none
      → matches_time c e t ≡ false
      → IsFirst limit t overflow
  IsFirst-overflow limit t p m zero v q h = rw (← nth_minute-zero t v q) m
  IsFirst-overflow limit t p m (suc j) v q h = absurd (nth_minute-none t v j p q)

  IsFirst-past : (limit : ℕ) (t : Time) → limit < instant t → IsFirst limit t past_limit
  IsFirst-past limit t h j v q k = absurd (omega (arith, instant-nth_minute t j v q))

  search_from-IsFirst :
      (fuel limit : ℕ) (t : Time)
      → limit < instant t + fuel * minute_ns
      → IsFirst limit t (search_from c (suc fuel) e limit t)
  unfolding search_from
  search_from-IsFirst zero limit t h =
      let late : limit < instant t = omega arith in
      rw (lt→leb-false (instant t) limit late) (IsFirst-past limit t late)
  search_from-IsFirst (suc fuel) limit t h = elim (Bool-cases (leb (instant t) limit)) [
    | inl a ↦ rw a (elim (Bool-cases (matches_time c e t)) [
      | inl m ↦ rw m (IsFirst-here limit t m (leb→le _ _ a))
      | inr m ↦ rw m (elim (Option-cases (add_minutes t 1)) [
        | inl p ↦ rw p (IsFirst-overflow limit t p m)
        | inr (u, p) ↦ rw p (
            IsFirst-later limit t u _ p m
              (search_from-IsFirst fuel limit u (omega (arith, add_minutes_lem t 1 u p))))
      ])
    ])
    | inr a ↦ rw a (IsFirst-past limit t (leb-false→lt _ _ a))
  ]

  first_candidate-lt :
      (from start : Time) → first_candidate c from ≡ some start → instant from < instant start
  unfolding first_candidate
  first_candidate-lt from start h = elim (Option-cases (add_minutes from 1)) [
    | inl p ↦ absurd (none_start from p h)
    | inr (u, p) ↦
        omega (
          arith,
          add_minutes_lem from 1 u p,
          on_the_minute-le u start (rw (p, first_candidate) at h),
        )
  ]
    where
      none_start :
          (from : Time) → add_minutes from 1 ≡ none → first_candidate c from ≡ some start → ⊥
      none_start from p = rw (p, first_candidate) (λ q. cc)

  -- What `next_after` answers, for the minutes from `start` up to `limit`.
  abbrev pub IsNext : ℕ → Time → Option Time → Type 0
  IsNext limit start (some t) =
      (k : ℕ) × (nth_minute c start k ≡ some t)
      × (matches_time c e t ≡ true)
      × (instant t ≤ limit)
      × ((j : ℕ) (v : Time) → j < k → nth_minute c start j ≡ some v → matches_time c e v ≡ false)
  IsNext limit start none =
      (j : ℕ) (v : Time)
      → nth_minute c start j ≡ some v
      → instant v ≤ limit
      → matches_time c e v ≡ false

  IsNext-answer :
      (limit : ℕ) (start : Time) (r : Search Time)
      → IsFirst limit start r
      → IsNext limit start (answer c r)
  IsNext-answer limit start (found t) h = h
  IsNext-answer limit start past_limit h = h
  IsNext-answer limit start overflow h = h
  IsNext-answer limit start out_of_fuel h = absurd h

  -- Where the first whole minute after `from` and the date five years on can be represented,
  -- `next_after` returns the first minute of those up to the limit that matches, and it returns
  -- nothing only if no minute up to the limit matches; the search does not run out of fuel.
  pub next_after-IsNext :
      (from start last : Time)
      → first_candidate c from ≡ some start
      → add_minutes from limit_minutes ≡ some last
      → IsNext (instant last) start (next_after c e from)
  unfolding next_after
  next_after-IsNext from start last h k = rw h (
      rw k (
        IsNext-answer (instant last) start _ (
          search_from-IsFirst limit_minutes (instant last) start (
            omega (
              arith,
              first_candidate-lt from start h,
              add_minutes_lem from limit_minutes last k,
            )))))
