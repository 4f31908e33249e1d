-- ===== src/Config/Tiers.antt =====
-- The model that a turn calls for a tier, and the note that the chat shows of it.
use lucy.Prelude.{
  ◌≤◌, ◌<◌, ◌≡◌, ◌⊎◌, refl, true, false, Option, none, some, ◌++◌, arith, Bool-cases, inl, inr,
  if◌then◌else◌,
}
use lucy.Text.{Text, codes, is_empty}
use lucy.Config.{
  ReasoningLevel, l1, l2, l3, Settings, as_number, short_name, is_bound, level_model,
  resolve_level_model, default_text_model, level_fallback_note,
}

-- `landed` is bound, and the deepest tier that is, of those no deeper than `level`
abbrev pub IsDeepestBound : Settings → ReasoningLevel → ReasoningLevel → Type 0
IsDeepestBound c level landed =
    (is_bound c landed ≡ true)
    × (as_number landed ≤ as_number level)
    × ((m : ReasoningLevel)
        → as_number landed < as_number m
        → as_number m ≤ as_number level
        → is_bound c m ≡ false)

abbrev pub NoneBound : Settings → ReasoningLevel → Type 0
NoneBound c level = (m : ReasoningLevel) → as_number m ≤ as_number level → is_bound c m ≡ false

-- what is shown of the tier that a turn landed on
abbrev pub shown : Settings → ReasoningLevel → ReasoningLevel → Option Text
shown c level landed =
    if is_bound c level
    then none
    else some (
        codes "no model bound to "
        ++ (short_name level ++ (codes " — using " ++ short_name landed)))

here :
    (c : Settings) (level : ReasoningLevel) → is_bound c level ≡ true → IsDeepestBound c level level
here c level e = (e, omega arith, λ m a b. absurd (omega arith))

deeper_2 :
    (c : Settings) (landed : ReasoningLevel)
    → is_bound c l2 ≡ false
    → IsDeepestBound c l1 landed
    → IsDeepestBound c l2 landed
deeper_2 c landed e (b, k, up) = (b, omega (arith, k), above)
  where
    above :
        (m : ReasoningLevel)
        → as_number landed < as_number m
        → as_number m ≤ 2
        → is_bound c m ≡ false
    above l1 lo hi = up l1 lo (omega arith)
    above l2 lo hi = e
    above l3 lo hi = absurd (omega arith)

deeper_3 :
    (c : Settings) (landed : ReasoningLevel)
    → is_bound c l3 ≡ false
    → IsDeepestBound c l2 landed
    → IsDeepestBound c l3 landed
deeper_3 c landed e (b, k, up) = (b, omega (arith, k), above)
  where
    above :
        (m : ReasoningLevel)
        → as_number landed < as_number m
        → as_number m ≤ 3
        → is_bound c m ≡ false
    above l1 lo hi = up l1 lo (omega arith)
    above l2 lo hi = up l2 lo (omega arith)
    above l3 lo hi = e

none_1 : (c : Settings) → is_bound c l1 ≡ false → NoneBound c l1
none_1 c e l1 k = e
none_1 c e l2 k = absurd (omega arith)
none_1 c e l3 k = absurd (omega arith)

none_2 : (c : Settings) → is_bound c l2 ≡ false → NoneBound c l1 → NoneBound c l2
none_2 c e h l1 k = h l1 (omega arith)
none_2 c e h l2 k = e
none_2 c e h l3 k = absurd (omega arith)

none_3 : (c : Settings) → is_bound c l3 ≡ false → NoneBound c l2 → NoneBound c l3
none_3 c e h l1 k = h l1 (omega arith)
none_3 c e h l2 k = h l2 (omega arith)
none_3 c e h l3 k = e

module _ (env : Text → Option Text) where
  abbrev pub Routed : Settings → ReasoningLevel → Type 0
  Routed c level =
      ((landed : ReasoningLevel) × IsDeepestBound c level landed
        × (resolve_level_model env c level ≡ level_model c landed)
        × (level_fallback_note env c level ≡ shown c level landed))
      ⊎ (NoneBound c level × (resolve_level_model env c level ≡ default_text_model env c))

  at_l1 : (c : Settings) → Routed c l1
  unfolding resolve_level_model level_fallback_note
  at_l1 c = elim (Bool-cases (is_empty (level_model c l1))) [
    | inl e ↦ inr (none_1 c (rw e refl), rw e refl)
    | inr e ↦ inl (l1, here c l1 (rw e refl), rw e refl, rw e refl)
  ]

  at_l2 : (c : Settings) → Routed c l2
  unfolding resolve_level_model level_fallback_note
  at_l2 c =
      by_tier (Bool-cases (is_empty (level_model c l2))) (Bool-cases (is_empty (level_model c l1)))
    where
      by_tier :
          (is_empty (level_model c l2) ≡ true) ⊎ (is_empty (level_model c l2) ≡ false)
          → (is_empty (level_model c l1) ≡ true) ⊎ (is_empty (level_model c l1) ≡ false)
          → Routed c l2
      by_tier (inr e) d = inl (l2, here c l2 (rw e refl), rw e refl, rw e refl)
      by_tier (inl e) (inr d) =
          inl
            (l1, deeper_2 c l1 (rw e refl) (here c l1 (rw d refl)), rw (e, d) refl, rw (e, d) refl)
      by_tier (inl e) (inl d) = inr (none_2 c (rw e refl) (none_1 c (rw d refl)), rw (e, d) refl)

  at_l3 : (c : Settings) → Routed c l3
  unfolding resolve_level_model level_fallback_note
  at_l3 c =
      by_tier (Bool-cases (is_empty (level_model c l3))) (Bool-cases (is_empty (level_model c l2)))
        (Bool-cases (is_empty (level_model c l1)))
    where
      by_tier :
          (is_empty (level_model c l3) ≡ true) ⊎ (is_empty (level_model c l3) ≡ false)
          → (is_empty (level_model c l2) ≡ true) ⊎ (is_empty (level_model c l2) ≡ false)
          → (is_empty (level_model c l1) ≡ true) ⊎ (is_empty (level_model c l1) ≡ false)
          → Routed c l3
      by_tier (inr e) d b = inl (l3, here c l3 (rw e refl), rw e refl, rw e refl)
      by_tier (inl e) (inr d) b =
          inl
            (l2, deeper_3 c l2 (rw e refl) (here c l2 (rw d refl)), rw (e, d) refl, rw (e, d) refl)
      by_tier (inl e) (inl d) (inr b) = inl (
        l1,
        deeper_3 c l1 (rw e refl) (deeper_2 c l1 (rw d refl) (here c l1 (rw b refl))),
        rw (e, d, b) refl,
        rw (e, d, b) refl,
      )
      by_tier (inl e) (inl d) (inl b) =
          inr
            (none_3 c (rw e refl) (none_2 c (rw d refl) (none_1 c (rw b refl))), rw (e, d, b) refl)

  -- A turn calls the model of its own tier, or of the deepest cheaper tier that is bound, and the note
  -- names that tier where it is another one; only where no tier up to its own is bound does it call the
  -- default model.
  pub resolve_level_model-Routed : (c : Settings) (level : ReasoningLevel) → Routed c level
  resolve_level_model-Routed c l1 = at_l1 c
  resolve_level_model-Routed c l2 = at_l2 c
  resolve_level_model-Routed c l3 = at_l3 c
