-- ===== src/Core/Approval/Prompts.antt =====
-- What becomes of an open prompt while other tasks use the gate.
use lucy.Prelude.{
  ℕ, ◌<◌, ◌≡◌, ◌≢◌, ◌⊎◌, inl, inr, none, some, List, [], ◌∷◌, arith, Option-cases, All,
}
use lucy.Prelude.Maps.{nat_key, lookup, lookup-insert, lookup-remove, lookup-cons}
use lucy.Text.{Text}
use lucy.Text.Equality.{text_key, text_eq_iff}
use lucy.Core.Approval.{
  ApprovalGate, ApprovalDecision, open_prompt, discard_prompt, resolve, set_mode,
}

-- What another task may do to the gate.
pub data Use : Type 0 where
  opens discards changes_mode : Text → Use
  resolves : Text → ApprovalDecision → Use

unfoldable pub use_gate : Use → ApprovalGate → ApprovalGate
use_gate (opens id) g = open_prompt id g
use_gate (discards id) g = discard_prompt id g
use_gate (changes_mode m) g = set_mode m g
use_gate (resolves id d) g = (resolve id d g).0

-- no other call has the id of this one
abbrev pub SparesId : Text → Use → Type 0
SparesId id (opens i) = i ≢ id
SparesId id (discards i) = i ≢ id
SparesId id _ = Unit {0}

abbrev pub NotAnswered : Text → Use → Type 0
NotAnswered id (resolves i d) = i ≢ id
NotAnswered id _ = Unit {0}

unfoldable pub use_all : List Use → ApprovalGate → ApprovalGate
use_all [] g = g
use_all (u ∷ us) g = use_all us (use_gate u g)

-- The channel belongs to the prompt of `id` alone: it is open, or its value was sent.
pub record Owns (id : Text) (ch : ℕ) (g : ApprovalGate) : Type 0 where
  pub old : ch < g.next_channel
  pub only : (i : Text) → lookup i g.pending ≡ some ch → i ≡ id
  pub state :
      ((lookup id g.pending ≡ some ch) × (lookup ch g.sent ≡ none))
      ⊎ ((lookup id g.pending ≡ none) × ((d : ApprovalDecision) × (lookup ch g.sent ≡ some d)))

module _ (id : Text) (ch : ℕ) (g : ApprovalGate) where
  opens-Owns : (i : Text) → i ≢ id → Owns id ch g → Owns id ch (open_prompt i g)
  unfolding open_prompt
  opens-Owns i ne h = record {
    old = omega (arith, h.old);
    only = λ j e.
        ground
          (arith, lookup-insert i j g.next_channel g.pending, text_eq_iff i j, h.only j, h.old);
    state = ground (arith, lookup-insert i id g.next_channel g.pending, text_eq_iff i id, h.state);
  }

  discards-Owns : (i : Text) → i ≢ id → Owns id ch g → Owns id ch (discard_prompt i g)
  unfolding discard_prompt
  discards-Owns i ne h = record {
    old = h.old;
    only = λ j e. ground (arith, lookup-remove i j g.pending, text_eq_iff i j, h.only j);
    state = ground (arith, lookup-remove i id g.pending, text_eq_iff i id, h.state);
  }

  resolves-Owns : (i : Text) (d : ApprovalDecision) → Owns id ch g → Owns id ch (resolve i d g).0
  unfolding resolve
  resolves-Owns i d h = elim (Option-cases (lookup i g.pending)) [
    | inl e ↦ rw e h
    | inr (c, e) ↦ rw e (record {
      old = h.old;
      only = λ j q. ground (arith, lookup-remove i j g.pending, text_eq_iff i j, h.only j);
      state = ground (
        arith,
        lookup-remove i id g.pending,
        text_eq_iff i id,
        lookup-cons ch c d g.sent,
        h.state,
        h.only i,
      );
    })
  ]

pub use_gate-Owns :
    (id : Text) (ch : ℕ) (u : Use) (g : ApprovalGate)
    → SparesId id u
    → Owns id ch g
    → Owns id ch (use_gate u g)
unfolding use_gate set_mode
use_gate-Owns id ch (opens i) g ne h = opens-Owns id ch g i ne h
use_gate-Owns id ch (discards i) g ne h = discards-Owns id ch g i ne h
use_gate-Owns id ch (changes_mode m) g ne h = record { old = h.old; only = h.only; state = h.state }
use_gate-Owns id ch (resolves i d) g ne h = resolves-Owns id ch g i d h

pub use_all-Owns :
    (id : Text) (ch : ℕ) (us : List Use) (g : ApprovalGate)
    → All (SparesId id) us
    → Owns id ch g
    → Owns id ch (use_all us g)
unfolding use_all
use_all-Owns id ch [] g ne h = h
use_all-Owns id ch (u ∷ us) g ne h =
    use_all-Owns id ch us (use_gate u g) ne.1 (use_gate-Owns id ch u g ne.0 h)

resolve_unsent :
    (id : Text) (ch : ℕ) (i : Text) (d : ApprovalDecision) (g : ApprovalGate)
    → i ≢ id
    → Owns id ch g
    → lookup ch g.sent ≡ none
    → lookup ch (resolve i d g).0.sent ≡ none
unfolding resolve
resolve_unsent id ch i d g ne h e = elim (Option-cases (lookup i g.pending)) [
  | inl q ↦ rw q e
  | inr (c, q) ↦ rw q (ground (arith, lookup-cons ch c d g.sent, h.only i))
]

use_gate_unsent :
    (id : Text) (ch : ℕ) (u : Use) (g : ApprovalGate)
    → NotAnswered id u
    → Owns id ch g
    → lookup ch g.sent ≡ none
    → lookup ch (use_gate u g).sent ≡ none
unfolding use_gate open_prompt discard_prompt set_mode
use_gate_unsent id ch (opens i) g ne h e = e
use_gate_unsent id ch (discards i) g ne h e = e
use_gate_unsent id ch (changes_mode m) g ne h e = e
use_gate_unsent id ch (resolves i d) g ne h e = resolve_unsent id ch i d g ne h e

-- The channel is nobody else's, and nothing was sent on it.
pub record Silent (id : Text) (ch : ℕ) (g : ApprovalGate) : Type 0 where
  pub old : ch < g.next_channel
  pub only : (i : Text) → lookup i g.pending ≡ some ch → i ≡ id
  pub unsent : lookup ch g.sent ≡ none

resolves-Silent :
    (id : Text) (ch : ℕ) (i : Text) (d : ApprovalDecision) (g : ApprovalGate)
    → i ≢ id
    → Silent id ch g
    → Silent id ch (resolve i d g).0
unfolding resolve
resolves-Silent id ch i d g ne h = elim (Option-cases (lookup i g.pending)) [
  | inl q ↦ rw q h
  | inr (c, q) ↦ rw q (record {
    old = h.old;
    only = λ j e. ground (arith, lookup-remove i j g.pending, text_eq_iff i j, h.only j);
    unsent = ground (arith, lookup-cons ch c d g.sent, h.only i, h.unsent);
  })
]

use_gate-Silent :
    (id : Text) (ch : ℕ) (u : Use) (g : ApprovalGate)
    → NotAnswered id u
    → Silent id ch g
    → Silent id ch (use_gate u g)
unfolding use_gate open_prompt discard_prompt set_mode
use_gate-Silent id ch (opens i) g ne h = record {
  old = omega (arith, h.old);
  only = λ j e.
      ground (arith, lookup-insert i j g.next_channel g.pending, text_eq_iff i j, h.only j, h.old);
  unsent = h.unsent;
}
use_gate-Silent id ch (discards i) g ne h = record {
  old = h.old;
  only = λ j e. ground (arith, lookup-remove i j g.pending, text_eq_iff i j, h.only j);
  unsent = h.unsent;
}
use_gate-Silent id ch (changes_mode m) g ne h = record {
  old = h.old;
  only = h.only;
  unsent = h.unsent;
}
use_gate-Silent id ch (resolves i d) g ne h = resolves-Silent id ch i d g ne h

-- Whatever other calls do to the prompt, of the same id or another, nothing is sent while nobody answers.
pub use_all-Silent :
    (id : Text) (ch : ℕ) (us : List Use) (g : ApprovalGate)
    → All (NotAnswered id) us
    → Silent id ch g
    → lookup ch (use_all us g).sent ≡ none
unfolding use_all
use_all-Silent id ch [] g a h = h.unsent
use_all-Silent id ch (u ∷ us) g a h =
    use_all-Silent id ch us (use_gate u g) a.1 (use_gate-Silent id ch u g a.0 h)

-- While nobody answers, nothing is sent.
pub use_all_unsent :
    (id : Text) (ch : ℕ) (us : List Use) (g : ApprovalGate)
    → All (SparesId id) us
    → All (NotAnswered id) us
    → Owns id ch g
    → lookup ch g.sent ≡ none
    → lookup ch (use_all us g).sent ≡ none
unfolding use_all
use_all_unsent id ch [] g s a h e = e
use_all_unsent id ch (u ∷ us) g s a h e =
    use_all_unsent id ch us (use_gate u g) s.1 a.1 (use_gate-Owns id ch u g s.0 h)
      (use_gate_unsent id ch u g a.0 h e)

-- What holds of a gate from which a prompt is opened: every channel in use is below the next one.
pub record IsFresh (g : ApprovalGate) : Type 0 where
  pub pending_below : (i : Text) (ch : ℕ) → lookup i g.pending ≡ some ch → ch < g.next_channel
  pub unsent : lookup g.next_channel g.sent ≡ none

pub open_prompt-Owns :
    (id : Text) (g : ApprovalGate) → IsFresh g → Owns id g.next_channel (open_prompt id g)
unfolding open_prompt
open_prompt-Owns id g h = record {
  old = omega arith;
  only = λ j e. ground (
    arith,
    lookup-insert id j g.next_channel g.pending,
    text_eq_iff id j,
    h.pending_below j g.next_channel,
  );
  state =
      inl
        (ground (arith, lookup-insert id id g.next_channel g.pending, text_eq_iff id id), h.unsent);
}

pub open_prompt-Silent :
    (id : Text) (g : ApprovalGate) → IsFresh g → Silent id g.next_channel (open_prompt id g)
unfolding open_prompt
open_prompt-Silent id g h = record {
  old = omega arith;
  only = λ j e. ground (
    arith,
    lookup-insert id j g.next_channel g.pending,
    text_eq_iff id j,
    h.pending_below j g.next_channel,
  );
  unsent = h.unsent;
}
