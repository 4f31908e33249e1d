-- ===== src/Core/Interrupt/Stop.antt =====
-- No stop is lost between the noted epoch and the end of `reset_if_epoch`.
use lucy.Prelude.{
  ℕ, ◌+◌, ◌%◌, ◌≤◌, ◌<◌, ◌≡◌, Bool, true, false, List, [], ◌∷◌, arith, ◌==◌, ◌⊎◌, inl, inr, refl,
  Bool-cases,
}
use lucy.Core.Interrupt.{
  Reset, entered, checked, cleared, restoring, returned, World, u64_mod, Action, fire_epoch,
  fire_flag, reset_next, act, run, start,
}

-- the flag stands for every `fire` that is through
abbrev Raised : World → Type 0
Raised w = 0 < w.fired → w.raising ≡ 0 → w.flag ≡ true

-- what holds of the flag at each point of the reset
abbrev AtReset : Reset → World → Type 0
AtReset entered w = Raised w
AtReset checked w = Raised w
AtReset cleared w = w.fired ≡ 0 → w.flag ≡ false
AtReset restoring w = 0 < w.fired
AtReset (returned true) w = Raised w × (w.fired ≡ 0 → w.flag ≡ false)
AtReset (returned false) w = Raised w × (0 < w.fired)

record Inv (e : ℕ) (w : World) : Type 0 where
  counted : w.epoch ≡ (e + w.fired) % u64_mod
  begun : w.raising ≤ w.fired
  at_reset : AtReset w.reset w

fired-act : (e : ℕ) (a : Action) (w : World) → w.fired ≤ (act e a w).fired
unfolding act
fired-act e fire_epoch w = omega arith
fired-act e fire_flag w = ground arith
fired-act e reset_next w = ground arith

module _ (e : ℕ) (small : e < u64_mod) (b : Bool) (ep ra fi : ℕ) where
  abbrev at : Reset → World
  at r = record { flag = b; epoch = ep; reset = r; raising = ra; fired = fi }

  fire_epoch-Inv : (r : Reset) → Inv e (at r) → Inv e (act e fire_epoch (at r))
  unfolding act
  fire_epoch-Inv entered h = ground arith
  fire_epoch-Inv checked h = ground arith
  fire_epoch-Inv cleared h = ground arith
  fire_epoch-Inv restoring h = ground arith
  fire_epoch-Inv (returned true) h = ground arith
  fire_epoch-Inv (returned false) h = ground arith

  fire_flag-Inv : (r : Reset) → Inv e (at r) → Inv e (act e fire_flag (at r))
  unfolding act
  fire_flag-Inv entered h = ground arith
  fire_flag-Inv checked h = ground arith
  fire_flag-Inv cleared h = ground arith
  fire_flag-Inv restoring h = ground arith
  fire_flag-Inv (returned true) h = ground arith
  fire_flag-Inv (returned false) h = ground arith

  reset-Inv : (r : Reset) → fi < u64_mod → Inv e (at r) → Inv e (act e reset_next (at r))
  unfolding act
  reset-Inv entered lt h = ground arith
  reset-Inv checked lt h = ground arith
  reset-Inv cleared lt h = ground arith
  reset-Inv restoring lt h = ground arith
  reset-Inv (returned true) lt h = h
  reset-Inv (returned false) lt h = h

module _ (e : ℕ) (small : e < u64_mod) where
  act-Inv : (a : Action) (w : World) → w.fired < u64_mod → Inv e w → Inv e (act e a w)
  act-Inv fire_epoch w lt h = fire_epoch-Inv e small w.flag w.epoch w.raising w.fired w.reset h
  act-Inv fire_flag w lt h = fire_flag-Inv e small w.flag w.epoch w.raising w.fired w.reset h
  act-Inv reset_next w lt h = reset-Inv e small w.flag w.epoch w.raising w.fired w.reset lt h

  fired-run : (actions : List Action) (w : World) → w.fired ≤ (run e actions w).fired
  unfolding run
  fired-run [] w = omega arith
  fired-run (a ∷ rest) w = omega (arith, fired-act e a w, fired-run rest (act e a w))

  run-Inv :
      (actions : List Action) (w : World)
      → (run e actions w).fired < u64_mod
      → Inv e w
      → Inv e (run e actions w)
  unfolding run
  run-Inv [] w lt h = h
  run-Inv (a ∷ rest) w lt h =
      run-Inv rest (act e a w) lt
        (act-Inv a w (omega (arith, fired-act e a w, fired-run rest (act e a w))) h)

start-Inv : (e : ℕ) (b : Bool) → e < u64_mod → Inv e (start e b)
start-Inv e b h = ground arith

abbrev Outcome : World → Bool → Type 0
Outcome w true = w.fired ≡ 0 → w.flag ≡ false
Outcome w false = 0 < w.fired

returned-Outcome :
    (r : Reset) (w : World) (b : Bool) → r ≡ returned b → AtReset r w → Raised w × Outcome w b
returned-Outcome (returned true) w true q h = (h.0, h.1)
returned-Outcome (returned false) w false q h = (h.0, h.1)
returned-Outcome (returned true) w false q h = cc
returned-Outcome (returned false) w true q h = cc
returned-Outcome entered w b q h = cc
returned-Outcome checked w b q h = cc
returned-Outcome cleared w b q h = cc
returned-Outcome restoring w b q h = cc

settle :
    (w : World) (b : Bool)
    → w.raising ≡ 0
    → Raised w × Outcome w b
    → ((0 < w.fired) × (w.flag ≡ true)) ⊎ ((w.fired ≡ 0) × (b ≡ true) × (w.flag ≡ false))
settle w b quiet h = elim (Bool-cases (w.fired == 0)) [
  | inl z ↦ inr (none_fired b (ground arith) h.1)
  | inr p ↦ inl (ground arith, h.0 (ground arith) quiet)
]
  where
    none_fired :
        (b : Bool) → w.fired ≡ 0 → Outcome w b → (w.fired ≡ 0) × (b ≡ true) × (w.flag ≡ false)
    none_fired true z o = (z, refl, o z)
    none_fired false z o = absurd (omega arith)

-- However the atomic steps of one `reset_if_epoch` and of fewer than 2^64 calls of `fire` interleave
-- after the epoch was noted: once `reset_if_epoch` has returned b and every call of `fire` is through,
-- either there was a `fire` and the flag is set, or there was none, b is true and the flag is down.
pub reset_if_epoch_keeps_stop :
    (e : ℕ) (flag b : Bool) (actions : List Action)
    → e < u64_mod
    → (run e actions (start e flag)).fired < u64_mod
    → (run e actions (start e flag)).reset ≡ returned b
    → (run e actions (start e flag)).raising ≡ 0
    → ((0 < (run e actions (start e flag)).fired) × ((run e actions (start e flag)).flag ≡ true))
      ⊎ (((run e actions (start e flag)).fired ≡ 0)
          × (b ≡ true)
          × ((run e actions (start e flag)).flag ≡ false))
reset_if_epoch_keeps_stop e flag b actions small few done quiet =
    settle (run e actions (start e flag)) b quiet (
      returned-Outcome (run e actions (start e flag)).reset (run e actions (start e flag)) b done
        (run-Inv e small actions (start e flag) few (start-Inv e flag small)).at_reset)
