-- ===== src/Core/Interrupt.antt =====
-- `InterruptSignal` of crates/lucy-core/src/lib.rs: any number of callers of `fire` beside one caller of
-- `reset_if_epoch`, step by atomic step.
pub mod Stop
use lucy.Prelude.{
  ℕ, zero, suc, ◌+◌, ◌-◌, ◌%◌, ◌^◌, Bool, true, false, List, [], ◌∷◌, ◌==◌, if◌then◌else◌,
}

-- Where the caller of `reset_if_epoch` stands.
pub data Reset : Type 0 where
  entered checked cleared restoring : Reset
  returned : Bool → Reset

pub record World : Type 0 where
  pub flag : Bool
  pub epoch : ℕ  -- u64
  pub reset : Reset
  -- calls of `fire` between its two writes
  pub raising : ℕ
  -- calls of `fire` that have counted up, since the world began; no part of the program
  pub fired : ℕ

abbrev pub u64_mod : ℕ
u64_mod = 2 ^ 64

-- One atomic operation of some thread.
pub data Action : Type 0 where
  fire_epoch fire_flag reset_next : Action

-- `fetch_add(1)` wraps
unfoldable pub fire_first : World → World
fire_first w = record w {
  epoch = (w.epoch + 1) % u64_mod;
  raising = w.raising + 1;
  fired = w.fired + 1;
}

-- `flag.store(true)`, by a caller that has counted up
unfoldable pub fire_second : World → World
fire_second w = if w.raising == 0 then w else record w { flag = true; raising = w.raising - 1 }

unfoldable pub reset_step : ℕ → Reset → World → World
reset_step e entered w =
    if w.epoch == e then record w { reset = checked } else record w { reset = returned false }
reset_step e checked w = record w { flag = false; reset = cleared }
reset_step e cleared w =
    if w.epoch == e then record w { reset = returned true } else record w { reset = restoring }
reset_step e restoring w = record w { flag = true; reset = returned false }
reset_step e (returned b) w = w

-- `reset`: the flag is cleared whatever was fired meanwhile; no caller of the two others runs it
abbrev pub clear_flag : World → World
clear_flag w = record w { flag = false }

unfoldable pub act : ℕ → Action → World → World
unfolding fire_first fire_second reset_step
act e fire_epoch w = fire_first w
act e fire_flag w = fire_second w
act e reset_next w = reset_step e w.reset w

unfoldable pub run : ℕ → List Action → World → World
unfolding act
run e [] w = w
run e (a ∷ rest) w = run e rest (act e a w)

-- Before the call: the epoch that the caller noted is the current one.
abbrev pub start : ℕ → Bool → World
start e b = record { flag = b; epoch = e; reset = entered; raising = 0; fired = 0 }
