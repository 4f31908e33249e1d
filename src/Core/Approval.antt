-- ===== src/Core/Approval.antt =====
-- `ApprovalGate` of crates/lucy-core/src/lib.rs. A one-shot channel is its number: `pending` maps the id
-- of a call to the sender, `sent` holds what was sent. The locks are never poisoned.
pub mod Modes
pub mod Prompts
pub mod Answers
use lucy.Prelude.{
  ℕ, ◌+◌, Bool, true, false, ◌&&◌, ◌||◌, not, Option, none, some, List, [], ◌∷◌, ◌==◌,
  if◌then◌else◌, any, keep, ◌++◌,
}
use lucy.Prelude.Maps.{Map, lookup, insert, remove, nat_key}
use lucy.Text.{Text, codes, text_eq, trim}
use lucy.Text.Equality.{text_key}

pub data ApprovalDecision : Type 0 where
  allow_once allow_always deny : ApprovalDecision

pub record ApprovalGate : Type 0 where
  pub mode : Text
  pub always_allow : List Text
  pub pending : Map Text ℕ
  pub sent : Map ℕ ApprovalDecision
  pub next_channel : ℕ
  -- the ids of the published requests, newest first
  pub published : List Text

abbrev pub write_mode : Text
write_mode = codes "write"

unfoldable pub current_mode : ApprovalGate → Text
current_mode g =
    let m = trim g.mode in
    if text_eq m (codes "never") || text_eq m (codes "write") || text_eq m (codes "always")
    then m
    else write_mode

unfoldable pub is_always_allowed : ApprovalGate → Text → Bool
is_always_allowed g tool = any (λ t. text_eq t tool) g.always_allow

unfoldable pub needs_approval : ApprovalGate → Text → Bool → Bool
needs_approval g tool requires =
    if text_eq (current_mode g) (codes "never")
    then false
    else if is_always_allowed g tool
    then false
    else if text_eq (current_mode g) (codes "always")
    then true
    else requires

unfoldable pub set_mode : Text → ApprovalGate → ApprovalGate
set_mode m g = record g { mode = m }

abbrev add_tool : Text → List Text → List Text
add_tool t ts = if any (λ s. text_eq s t) ts then ts else t ∷ ts

unfoldable pub seed_always_allowed : List Text → ApprovalGate → ApprovalGate
seed_always_allowed [] g = g
seed_always_allowed (t ∷ ts) g =
    seed_always_allowed ts (record g { always_allow = add_tool t g.always_allow })

-- the channel is new; an older sender under the same id is dropped
unfoldable pub open_prompt : Text → ApprovalGate → ApprovalGate
open_prompt id g = record g {
  pending = insert id g.next_channel g.pending;
  next_channel = g.next_channel + 1;
  published = id ∷ g.published;
}

unfoldable pub discard_prompt : Text → ApprovalGate → ApprovalGate
discard_prompt id g = record g { pending = remove id g.pending }

unfoldable pub record_always_allow : Text → ApprovalDecision → ApprovalGate → ApprovalGate
record_always_allow name allow_always g = record g { always_allow = add_tool name g.always_allow }
record_always_allow name d g = g

abbrev send_on : Option ℕ → Text → ApprovalDecision → ApprovalGate → ApprovalGate × Bool
send_on none id d g = (g, false)
send_on (some ch) id d g =
    (record g { pending = remove id g.pending; sent = (ch, d) ∷ g.sent }, true)

unfoldable pub resolve : Text → ApprovalDecision → ApprovalGate → ApprovalGate × Bool
resolve id d g = send_on (lookup id g.pending) id d g

-- What the receiver of a channel sees: a value, a dropped sender, or nothing yet.
pub data Poll : Type 0 where
  answered : ApprovalDecision → Poll
  closed still_open : Poll

abbrev pub poll_pending : ℕ → Option ℕ → Poll
poll_pending ch none = closed
poll_pending ch (some c) = if c == ch then still_open else closed

abbrev poll_sent : Option ApprovalDecision → Poll → Poll
poll_sent (some d) p = answered d
poll_sent none p = p

-- The sender of the channel `ch` of the call `id` stands nowhere but under `id`.
unfoldable pub poll : Text → ℕ → ApprovalGate → Poll
poll id ch g = poll_sent (lookup ch g.sent) (poll_pending ch (lookup id g.pending))

-- How a waiting call goes on: not yet, with a decision, or stopped.
pub data Asked : Type 0 where
  waiting stopped : Asked
  decided : ApprovalDecision → Asked

-- `ask`, each time the task is woken; `elapsed` says that 300 seconds have passed. `timeout` polls the
-- channel before the clock.
unfoldable pub ask_wake : Text → Text → Bool → Poll → ApprovalGate → Asked × ApprovalGate
ask_wake id name elapsed (answered d) g = (decided d, record_always_allow name d g)
ask_wake id name elapsed closed g = (decided deny, discard_prompt id g)
ask_wake id name true still_open g = (decided deny, discard_prompt id g)
ask_wake id name false still_open g = (waiting, g)

-- Which branch of the `select!` is taken.
pub data Wake : Type 0 where
  by_channel : Bool → Wake
  by_interrupt : Wake

-- the branch of the channel, in `ask_cancellable`
answer_wake : Text → Text → Bool → Poll → ApprovalGate → Asked × ApprovalGate
answer_wake id name elapsed (answered d) g = (decided d, record_always_allow name d g)
answer_wake id name elapsed closed g = (decided deny, record_always_allow name deny g)
answer_wake id name true still_open g = (decided deny, record_always_allow name deny g)
answer_wake id name false still_open g = (waiting, g)

unfoldable pub ask_cancellable_wake :
    Text → Text → Wake → Poll → ApprovalGate → Asked × ApprovalGate
unfolding answer_wake record_always_allow
ask_cancellable_wake id name (by_channel elapsed) p g = answer_wake id name elapsed p g
ask_cancellable_wake id name by_interrupt p g = (stopped, discard_prompt id g)

-- `newly_allowed` before it is sorted
unfoldable pub newly_allowed : List Text → ApprovalGate → List Text
newly_allowed configured g = keep (λ t. not (any (λ c. text_eq c t) configured)) g.always_allow
