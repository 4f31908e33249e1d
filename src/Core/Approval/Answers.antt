-- ===== src/Core/Approval/Answers.antt =====
-- How `ask` and `ask_cancellable` end, and what they leave behind.
use lucy.Prelude.{
  ℕ, Option, ◌==◌, Bool-cases, inl, inr, ◌≡◌, refl, ◌⊎◌, Bool, true, false, none, some, List, arith,
  All,
}
use lucy.Prelude.Maps.{nat_key, lookup, lookup-remove}
use lucy.Text.{Text}
use lucy.Text.Equality.{text_key, text_eq_iff}
use lucy.Core.Approval.{
  ApprovalGate, ApprovalDecision, allow_once, allow_always, deny, open_prompt, discard_prompt,
  resolve, poll, poll_pending, Poll, answered, closed, still_open, decided, ask_wake,
  ask_cancellable_wake, Wake, by_channel, by_interrupt, record_always_allow,
}
use lucy.Core.Approval.Prompts.{
  Use, SparesId, NotAnswered, use_all, Owns, IsFresh, use_all-Owns, use_all_unsent, use_all-Silent,
  open_prompt-Silent, open_prompt-Owns,
}

pending-record :
    (name : Text) (d : ApprovalDecision) (g : ApprovalGate)
    → (record_always_allow name d g).pending ≡ g.pending
unfolding record_always_allow
pending-record name allow_always g = refl
pending-record name allow_once g = refl
pending-record name deny g = refl

lookup-discard : (id : Text) (g : ApprovalGate) → lookup id (discard_prompt id g).pending ≡ none
unfolding discard_prompt
lookup-discard id g = ground (arith, lookup-remove id id g.pending, text_eq_iff id id)

module _ (id name : Text) (ch : ℕ) (g : ApprovalGate) (own : Owns id ch g) where
  -- an answer that was sent has left the map
  answered-gone : (d : ApprovalDecision) → poll id ch g ≡ answered d → lookup id g.pending ≡ none
  unfolding poll
  answered-gone d h = ground (arith, own.state)

  ask_wake-gone :
      (elapsed : Bool) (p : Poll) (d : ApprovalDecision)
      → poll id ch g ≡ p
      → (ask_wake id name elapsed p g).0 ≡ decided d
      → lookup id (ask_wake id name elapsed p g).1.pending ≡ none
  unfolding ask_wake
  ask_wake-gone elapsed (answered a) d q h = rw pending-record (answered-gone a q)
  ask_wake-gone elapsed closed d q h = lookup-discard id g
  ask_wake-gone true still_open d q h = lookup-discard id g
  ask_wake-gone false still_open d q h = cc

  module _ (silent : lookup ch g.sent ≡ none) where
    still_pending : lookup id g.pending ≡ some ch
    still_pending = ground (arith, own.state)

    poll_open : poll id ch g ≡ still_open
    unfolding poll
    poll_open = rw (silent, still_pending) (ground arith)

    resolve_pending : (d : ApprovalDecision) → (resolve id d g).1 ≡ true
    unfolding resolve
    resolve_pending d = rw still_pending refl

resolve_absent :
    (id : Text) (d : ApprovalDecision) (g : ApprovalGate)
    → lookup id g.pending ≡ none
    → (resolve id d g).1 ≡ false
unfolding resolve
resolve_absent id d g h = rw h refl

-- what the receiver sees of a channel on which nothing was sent
abbrev NoAnswer : Poll → Type 0
NoAnswer (answered d) = ⊥
NoAnswer p = Unit {0}

poll-NoAnswer :
    (id : Text) (ch : ℕ) (g : ApprovalGate) → lookup ch g.sent ≡ none → NoAnswer (poll id ch g)
unfolding poll
poll-NoAnswer id ch g e = rw e (waits (lookup id g.pending))
  where
    waits : (o : Option ℕ) → NoAnswer (poll_pending ch o)
    waits none = tt
    waits (some c) = elim (Bool-cases (c == ch)) [ inl f ↦ rw f tt | inr f ↦ rw f tt ]

ask_denies :
    (id name : Text) (g : ApprovalGate) (elapsed : Bool) (p : Poll) (d : ApprovalDecision)
    → NoAnswer p
    → (ask_wake id name elapsed p g).0 ≡ decided d
    → d ≡ deny
unfolding ask_wake
ask_denies id name g elapsed (answered a) d n h = absurd n
ask_denies id name g elapsed closed d n h = ground arith
ask_denies id name g true still_open d n h = ground arith
ask_denies id name g false still_open d n h = ground arith

ask_cancellable_denies :
    (id name : Text) (g : ApprovalGate) (w : Wake) (p : Poll) (d : ApprovalDecision)
    → NoAnswer p
    → (ask_cancellable_wake id name w p g).0 ≡ decided d
    → d ≡ deny
unfolding ask_cancellable_wake
ask_cancellable_denies id name g w (answered a) d n h = absurd n
ask_cancellable_denies id name g by_interrupt p d n h = ground arith
ask_cancellable_denies id name g (by_channel e) closed d n h = ground arith
ask_cancellable_denies id name g (by_channel true) still_open d n h = ground arith
ask_cancellable_denies id name g (by_channel false) still_open d n h = ground arith

after_timeout :
    (id name : Text) (g : ApprovalGate) (d : ApprovalDecision)
    → (resolve id d g).1 ≡ true
    → ((ask_wake id name true still_open g).0 ≡ decided deny)
      × ((resolve id d (ask_wake id name true still_open g).1).1 ≡ false)
      × ((ask_cancellable_wake id name (by_channel true) still_open g).0 ≡ decided deny)
      × ((resolve id d (ask_cancellable_wake id name (by_channel true) still_open g).1).1 ≡ true)
unfolding ask_wake ask_cancellable_wake
after_timeout id name g d h =
    (refl, resolve_absent id d (discard_prompt id g) (lookup-discard id g), refl, h)

-- The gate as a waiting call finds it: its prompt was opened, and other tasks have used the gate.
abbrev pub later : Text → List Use → ApprovalGate → ApprovalGate
later id uses g = use_all uses (open_prompt id g)

module _ (id name : Text) (g : ApprovalGate) (uses : List Use) (fresh : IsFresh g)
    (spared : All (SparesId id) uses) where
  later-Owns : Owns id g.next_channel (later id uses g)
  later-Owns =
      use_all-Owns id g.next_channel uses (open_prompt id g) spared (open_prompt-Owns id g fresh)

  later_unsent : All (NotAnswered id) uses → lookup g.next_channel (later id uses g).sent ≡ none
  later_unsent quiet =
      use_all_unsent id g.next_channel uses (open_prompt id g) spared quiet
        (open_prompt-Owns id g fresh) (unfold open_prompt in fresh.unsent)

  -- Whatever other tasks do to other prompts, when `ask` has decided, by an answer, by a lost sender or
  -- by its timeout, its prompt is no longer pending.
  pub ask_discards :
      (elapsed : Bool) (d : ApprovalDecision)
      → (ask_wake id name elapsed (poll id g.next_channel (later id uses g)) (later id uses g)).0
        ≡ decided d
      → lookup id
          (ask_wake id name elapsed
            (poll id g.next_channel (later id uses g))
            (later id uses g)).1.pending
        ≡ none
  ask_discards elapsed d h =
      ask_wake-gone id name g.next_channel (later id uses g) later-Owns elapsed _ d refl h

  -- If nobody answers, a timeout denies in both functions; but `ask` takes its prompt away, so that a
  -- later answer resolves nothing, and `ask_cancellable` leaves it pending, so that a later answer is
  -- reported as resolved.
  pub ask_cancellable_timeout_leaves_prompt :
      (d : ApprovalDecision)
      → All (NotAnswered id) uses
      → ((ask_wake id name true (poll id g.next_channel (later id uses g)) (later id uses g)).0
          ≡ decided deny)
        × ((resolve id d
              (ask_wake id name true
                (poll id g.next_channel (later id uses g))
                (later id uses g)).1).1
            ≡ false)
        × ((ask_cancellable_wake id name
              (by_channel true)
              (poll id g.next_channel (later id uses g))
              (later id uses g)).0
            ≡ decided deny)
        × ((resolve id d
              (ask_cancellable_wake id name
                (by_channel true)
                (poll id g.next_channel (later id uses g))
                (later id uses g)).1).1
            ≡ true)
  ask_cancellable_timeout_leaves_prompt d quiet =
      rw (poll_open id name g.next_channel (later id uses g) later-Owns (later_unsent quiet)) (
        after_timeout id name (later id uses g) d (
          resolve_pending id name g.next_channel (later id uses g) later-Owns (later_unsent quiet)
            d))

-- A prompt that nobody answered is never an approval: whatever other tasks do to the gate, also under the
-- same id, and however `ask` or `ask_cancellable` goes on, woken by a lost sender, by its timeout or by an
-- interrupt, if it decides, it denies.
pub unanswered_denies :
    (id name : Text) (g : ApprovalGate) (uses : List Use) (elapsed : Bool) (w : Wake)
    (d : ApprovalDecision)
    → IsFresh g
    → All (NotAnswered id) uses
    → ((ask_wake id name elapsed (poll id g.next_channel (later id uses g)) (later id uses g)).0
        ≡ decided d)
      ⊎ ((ask_cancellable_wake id name w
            (poll id g.next_channel (later id uses g))
            (later id uses g)).0
          ≡ decided d)
    → d ≡ deny
unanswered_denies id name g uses elapsed w d fresh quiet h =
    let n = poll-NoAnswer id g.next_channel (later id uses g) (
      use_all-Silent id g.next_channel uses (open_prompt id g) quiet
        (open_prompt-Silent id g fresh)) in
    elim h [
      | inl e ↦ ask_denies id name (later id uses g) elapsed _ d n e
      | inr e ↦ ask_cancellable_denies id name (later id uses g) w _ d n e
    ]
